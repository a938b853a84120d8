-- ===== src/Pagination/Complete.antt =====
-- Walking through the pages.
use backend_boilerplate.Base.{
  some, ok, sym, ◌↔◌, true, ◌∙◌, zero, suc, refl, ◌∷◌, ◌/◌, ◌*◌, ◌-◌, suc, ap, ◌≤◌, ◌+◌, [], ◌++◌,
  length, ◌<◌, List, ℕ, ◌≡◌, arith,
}
use native.Mathlib.Nat.{lt-div-mul-add, le-div_iff_mul-le}
use backend_boilerplate.Pagination.{
  skip_of, PaginationMeta, Listing, take, drop, page_count, finite, page_meta,
}

module _ {A : Type 0} where
  -- The first `n` pages, one after the other.
  abbrev pub pages : ℕ → ℕ → List A → List A
  pages limit zero xs = []
  pages limit (suc n) xs = take limit xs ++ pages limit n (drop limit xs)

  take-append-drop : (n : ℕ) (xs : List A) → take n xs ++ drop n xs ≡ xs
  take-append-drop zero xs = refl
  take-append-drop (suc n) [] = refl
  take-append-drop (suc n) (x ∷ xs) = ap (◌∷◌ x) (take-append-drop n xs)

  length-drop : (n : ℕ) (xs : List A) → length (drop n xs) ≡ length xs - n
  length-drop zero xs = omega arith
  length-drop (suc n) [] = omega arith
  length-drop (suc n) (x ∷ xs) = omega (arith, length-drop n xs)

  pages_enough : (limit n : ℕ) (xs : List A) → length xs ≤ n * limit → pages limit n xs ≡ xs
  pages_enough limit zero [] h = refl
  pages_enough limit zero (x ∷ xs) h = absurd (omega arith)
  pages_enough limit (suc n) xs h =
      let tail_le : length (drop limit xs) ≤ n * limit = omega (arith, length-drop limit xs) in
      rw (pages_enough limit n (drop limit xs) tail_le) (take-append-drop limit xs)

  drop-drop : (m n : ℕ) (xs : List A) → drop m (drop n xs) ≡ drop (n + m) xs
  drop-drop m zero xs = let e : zero + m ≡ m = omega arith in rw e refl
  drop-drop zero (suc n) [] = let e : suc n + zero ≡ suc n = omega arith in rw e refl
  drop-drop (suc m) (suc n) [] = let e : suc n + suc m ≡ suc (n + suc m) = omega arith in rw e refl
  drop-drop m (suc n) (x ∷ xs) =
      let e : suc n + m ≡ suc (n + m) = omega arith in rw e (drop-drop m n xs)

  -- The answers to the questions for the `n` pages from page `p` on, one after the other.
  abbrev pub gather : (ℕ → List A) → ℕ → ℕ → List A
  gather f p zero = []
  gather f p (suc n) = f p ++ gather f (suc p) n

  pub gather-pages :
      (f : ℕ → List A) (limit : ℕ) (xs : List A)
      → ((p : ℕ) → f (suc p) ≡ take limit (drop (p * limit) xs))
      → (p n : ℕ) → gather f (suc p) n ≡ pages limit n (drop (p * limit) xs)
  gather-pages f limit xs h p zero = refl
  gather-pages f limit xs h p (suc n) =
      let next : suc p * limit ≡ p * limit + limit = omega arith in
      rw (h p, gather-pages f limit xs h (suc p) n, next, ← drop-drop limit (p * limit) xs) refl

count_covers : (total limit : ℕ) → 0 < limit → total ≤ ((total + (limit - 1)) / limit) * limit
count_covers total limit h = omega (arith, lt-div-mul-add {a = total + (limit - 1)} h)

-- Whoever asks for all the pages that the count announces gets every matching row once, in order.
pub gather_all :
    {A : Type 0} (f : ℕ → List A) (limit n : ℕ) (xs : List A)
    → ((p : ℕ) → f (suc p) ≡ take limit (drop (p * limit) xs))
    → page_count (length xs) limit ≡ finite n
    → gather f 1 n ≡ xs
unfolding page_count
gather_all f limit n xs h e =
    let positive : 0 < limit = ground arith in
    let count : n ≡ (length xs + (limit - 1)) / limit = ground arith in
    let enough : length xs ≤ n * limit = rw count (count_covers (length xs) limit positive) in
    let none_skipped : 0 * limit ≡ zero = omega arith in
    (rw none_skipped at (gather-pages f limit xs h 0 n)) ∙ pages_enough limit n xs enough

-- There is a next page exactly if rows are left behind this one.
pub has_next_iff :
    (page limit total : ℕ)
    → 0 < limit
    → ((page_meta page limit total).has_next ≡ true) ↔ (page * limit < total)
unfolding page_meta
has_next_iff page limit total h =
    let bound = le-div_iff_mul-le {k = limit} {x = suc page} {y = total + (limit - 1)} h in
    (
      (λ e.
          let fits : suc page * limit ≤ total + (limit - 1) = bound.0 (ground arith) in
          omega arith),
      (λ more.
          let fits : suc page ≤ (total + (limit - 1)) / limit = bound.1 (omega arith) in
          ground arith),
    )

module _ {S W O A : Type 0} (L : Listing S W O A) where
  -- The rows of a page, counted from 1.
  pub find_many-page :
      (s : S) (w : W) (o : O) (page p limit : ℕ) (found : List A)
      → page ≡ suc p
      → L.find_many s w o (skip_of page limit) limit ≡ ok found
      → found ≡ take limit (drop (p * limit) (L.matching s w o (skip_of page limit) limit))
  unfolding skip_of
  find_many-page s w o page p limit found first e =
      ground (arith, L.find_many_lem s w o (some (p * limit)) limit)

pub page_meta-count :
    (limit total : ℕ) (m : PaginationMeta) (n : ℕ)
    → m ≡ page_meta 1 limit total
    → m.total_pages ≡ finite n
    → page_count total limit ≡ finite n
unfolding page_meta
page_meta-count limit total m n e count = sym (ap (λ (x : PaginationMeta). x.total_pages) e) ∙ count
