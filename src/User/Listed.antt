-- ===== src/User/Listed.antt =====
-- Listing users page by page.
use backend_boilerplate.Base.{
  List, Result-cases, String, [], ap, arith, inl, inr, length, map, ok, refl, some, suc, zero, ℕ,
  ◌*◌, ◌∙◌, ◌∷◌, ◌≡◌,
}
use backend_boilerplate.Users.{User}
use backend_boilerplate.Pagination.{
  Untied, PaginationMeta, page_meta, page_count, skip_of, take, drop, finite,
}
use backend_boilerplate.Pagination.Complete.{gather, gather_all, find_many-page, page_meta-count}
use backend_boilerplate.User.{
  QueryUserDto, World, Services, where_of, to_response_dto, to_response_dtos, find_all, or_default,
  SortOrder,
}

abbrev pub ids : List User → List String
ids us = map (λ (u : User). u.id) us

module _ {A B : Type 0} (f : A → B) where
  map-take : (n : ℕ) (xs : List A) → map f (take n xs) ≡ take n (map f xs)
  map-take zero xs = refl
  map-take (suc n) [] = refl
  map-take (suc n) (x ∷ xs) = ap (◌∷◌ (f x)) (map-take n xs)

  map-drop : (n : ℕ) (xs : List A) → map f (drop n xs) ≡ drop n (map f xs)
  map-drop zero xs = refl
  map-drop (suc n) [] = refl
  map-drop (suc n) (x ∷ xs) = map-drop n xs

  length-map : (xs : List A) → length (map f xs) ≡ length xs
  length-map [] = refl
  length-map (x ∷ xs) = ap suc (length-map xs)

module _ {Us : Type 0} (S : Services Us) where
  to_response_dto-id : (u v : User) → to_response_dto S u ≡ ok v → v.id ≡ u.id
  unfolding to_response_dto
  to_response_dto-id u v e = ground arith

  to_response_dtos-ids : (us vs : List User) → to_response_dtos S us ≡ ok vs → ids vs ≡ ids us
  unfolding to_response_dtos
  to_response_dtos-ids [] vs e = ground arith
  to_response_dtos-ids (u ∷ us) vs e = elim (Result-cases (to_response_dto S u)) [
    | inr (x, bad) ↦ absurd (ground arith)
    | inl (v, first) ↦ elim (Result-cases (to_response_dtos S us)) [
      | inr (x, bad) ↦ absurd (ground arith)
      | inl (rest, others) ↦
          let shape : vs ≡ v ∷ rest = ground arith in
          rw (shape, to_response_dto-id u v first, to_response_dtos-ids us rest others) refl
    ]
  ]

  abbrev pub order_of : QueryUserDto → String × SortOrder
  order_of query =
      (or_default query.sort_by "createdAt", or_default query.sort_order SortOrder.desc)

  -- The rows that a query selects, in the order in which the database takes them for its page.
  abbrev pub selected : World Us → QueryUserDto → List User
  selected w query =
      (S.listing).matching w.users (where_of query) (order_of query)
        (skip_of (or_default query.page 1) (or_default query.limit 10)) (or_default query.limit 10)

  -- A listing that returns holds the selected rows from (page - 1) * limit on, at most limit many,
  -- with the metadata of their whole number, and changes nothing.
  pub find_all_lem :
      (w w' : World Us) (query : QueryUserDto) (p : ℕ) (rows : List User) (meta : PaginationMeta)
      → or_default query.page 1 ≡ suc p
      → find_all S query w ≡ (ok (rows, meta), w')
      → (w' ≡ w)
        × (meta ≡ page_meta (suc p) (or_default query.limit 10) (length (selected w query)))
        × (ids rows
            ≡ take
                (or_default query.limit 10)
                (drop (p * or_default query.limit 10) (ids (selected w query))))
  unfolding find_all
  find_all_lem w w' query p rows meta first e =
      elim (Result-cases
        ((S.listing).find_many w.users (where_of query) order (skip_of page limit) limit)) [
          | inr (x, bad) ↦ absurd (ground arith)
          | inl (us, found) ↦
              let shown : to_response_dtos S us ≡ ok rows = ground arith in
              let window =
                find_many-page S.listing w.users (where_of query) order page p limit us first
                  found in
              let listed : ids us ≡ take limit (drop (p * limit) (ids (selected w query))) =
                rw window (
                  map-take (λ (u : User). u.id) limit (drop (p * limit) (selected w query))
                  ∙ ap (take limit)
                      (map-drop (λ (u : User). u.id) (p * limit) (selected w query))) in
              (
                ground arith,
                ground (
                  arith,
                  (S.listing).count_lem w.users (where_of query) order (skip_of page limit) limit,
                ),
                to_response_dtos-ids us rows shown ∙ listed,
              )
        ]
    where
      page : ℕ
      page = or_default query.page 1

      limit : ℕ
      limit = or_default query.limit 10

      order : String × SortOrder
      order = (or_default query.sort_by "createdAt", or_default query.sort_order SortOrder.desc)

  -- If every page of a query returns, the table staying as it is, and no two of the selected users have
  -- the same value in the column of the order, the pages 1 to the announced number of pages are
  -- together the selected users, each once as it is selected, in the query's order.
  pub find_all_complete :
      (w : World Us) (query : QueryUserDto) (answers : ℕ → List User × PaginationMeta) (n : ℕ)
      → Untied ((S.listing).rank (order_of query)) (selected w query)
      → ((p : ℕ) → find_all S (record query { page = some (suc p) }) w ≡ (ok (answers (suc p)), w))
      → ((answers 1).1).total_pages ≡ finite n
      → gather (λ p. ids (answers p).0) 1 n ≡ ids (selected w query)
  unfolding where_of
  find_all_complete w query answers n untied asked count =
      gather_all (λ p. ids (answers p).0) (or_default query.limit 10) n (ids (selected w query))
        (λ p. (page_of p).2) counted
    where
      one_order : (p : ℕ) → selected w (record query { page = some (suc p) }) ≡ selected w query
      one_order p =
          (S.listing).untied_order w.users (where_of query) (order_of query)
            (skip_of (or_default query.page 1) (or_default query.limit 10))
            (skip_of (suc p) (or_default query.limit 10)) (or_default query.limit 10)
            (or_default query.limit 10) untied

      page_of :
          (p : ℕ)
          → (w ≡ w)
            × ((answers (suc p)).1
                ≡ page_meta (suc p) (or_default query.limit 10) (length (selected w query)))
            × (ids (answers (suc p)).0
                ≡ take
                    (or_default query.limit 10)
                    (drop (p * or_default query.limit 10) (ids (selected w query))))
      page_of p = rw (← one_order p) (
          find_all_lem w w (record query { page = some (suc p) }) p (answers (suc p)).0
            (answers (suc p)).1 refl (asked p))

      counted : page_count (length (ids (selected w query))) (or_default query.limit 10) ≡ finite n
      counted = rw (length-map (λ (u : User). u.id) (selected w query)) (
          page_meta-count (or_default query.limit 10) (length (selected w query)) (answers 1).1 n
            (page_of 0).1 count)
