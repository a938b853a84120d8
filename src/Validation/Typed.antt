-- ===== src/Validation/Typed.antt =====
-- A query that the pipe lets through, by the types of the class in
-- src/domains/user/presentation/dto/query-user.dto.ts. A query string has no `null`.
use backend_boilerplate.Base.{
  Bool-cases, Ensures, ◌∙◌, refl, subst, inr, ap, arith, inl, All, [], ◌≢◌, ◌∷◌, ◌≡◌, List, true,
  includes, Exception, Option, Result, String, if◌then◌else◌, none, ok, some, throw, ℕ, ◌==◌, ◌≤◌,
}
use backend_boilerplate.Json.{Json, null, num, str, Fields, value_of}
use backend_boilerplate.Users.{Role, admin}
use backend_boilerplate.User.{QueryUserDto, SortOrder}
use backend_boilerplate.Validation.{
  Check, is_int, is_string, is_enum, min, max, Passes, Accepted, ValidationPipe, query_user_dto,
  role_values,
}

-- The value of a property, where it is of the type that the class gives it.
abbrev pub as_number : Option Json → Option (Option ℕ)
as_number none = some none
as_number (some (num n)) = some (some n)
as_number (some _) = none

abbrev pub as_text : Option Json → Option (Option String)
as_text none = some none
as_text (some (str s)) = some (some s)
as_text (some _) = none

abbrev pub role_of : String → Option Role
role_of s =
    if "ADMIN" == s
    then some admin
    else (if "USER" == s
        then some Role.user
        else (if "MODERATOR" == s then some Role.moderator else none))

abbrev pub order_of : String → Option SortOrder
order_of s =
    if "asc" == s then some SortOrder.asc else (if "desc" == s then some SortOrder.desc else none)

abbrev known {ℓ} : {A : Type ℓ} → Option A → Option (Option A)
known none = none
known (some a) = some (some a)

abbrev as_enum {ℓ} : {A : Type ℓ} → (String → Option A) → Option Json → Option (Option A)
as_enum f none = some none
as_enum f (some (str s)) = known (f s)
as_enum f (some _) = none

abbrev pub typed :
    Option (Option ℕ)
    → Option (Option ℕ)
    → Option (Option String)
    → Option (Option Role)
    → Option (Option SortOrder)
    → Option (Option String)
    → Option QueryUserDto
typed (some page) (some limit) (some search) (some role) (some order) (some by) = some (record {
  page = page;
  limit = limit;
  search = search;
  role = role;
  sort_by = by;
  sort_order = order;
})
typed _ _ _ _ _ _ = none

-- The object as the handler's parameter, or `none` if a property is not of its type.
unfoldable pub to_query : Fields → Option QueryUserDto
to_query fs =
    typed (as_number (value_of "page" fs)) (as_number (value_of "limit" fs))
      (as_text (value_of "search" fs)) (as_enum role_of (value_of "role" fs))
      (as_enum order_of (value_of "sortOrder" fs)) (as_text (value_of "sortBy" fs))

abbrev pub or_fail : Option QueryUserDto → Exception → Result QueryUserDto
or_fail none x = throw x
or_fail (some q) x = ok q

module _ (name : String) (cs : List Check) where
  number_typed :
      (o : Option Json)
      → Accepted (record { name = name; optional = true; checks = is_int ∷ cs }) o
      → o ≢ some null
      → (m : Option ℕ) × ((as_number o ≡ some m)
          × ((n : ℕ) → m ≡ some n → All (λ c. Passes c (num n)) cs))
  number_typed none a there = (none, (refl, λ n e. absurd (ground arith)))
  number_typed (some v) (inl (_, e)) there = absurd (there (ap some e))
  number_typed (some v) (inr ((n, e), rest)) there =
      (some n, (rw e refl, λ k same. subst (λ w. All (λ c. Passes c w) cs) (e ∙ ground arith) rest))

text_typed :
    (name : String) (o : Option Json)
    → Accepted (record { name = name; optional = true; checks = is_string ∷ [] }) o
    → o ≢ some null
    → (m : Option String) × (as_text o ≡ some m)
text_typed name none a there = (none, refl)
text_typed name (some v) (inl (_, e)) there = absurd (there (ap some e))
text_typed name (some v) (inr ((s, e), rest)) there = (some s, rw e refl)

-- An enum whose texts all have a value.
enum_typed :
    {A : Type 0} (f : String → Option A) (ts : List String) (name : String)
    → ((s : String) → includes ts s ≡ true → (a : A) × (f s ≡ some a))
    → (o : Option Json)
    → Accepted (record { name = name; optional = true; checks = is_enum ts ∷ [] }) o
    → o ≢ some null
    → (m : Option A) × (as_enum f o ≡ some m)
enum_typed f ts name total none a there = (none, refl)
enum_typed f ts name total (some v) (inl (_, e)) there = absurd (there (ap some e))
enum_typed f ts name total (some v) (inr ((s, (e, listed)), rest)) there =
    let (a, found) = total s listed in (some a, rw (e, found) refl)

role_listed : (s : String) → includes role_values s ≡ true → (r : Role) × (role_of s ≡ some r)
role_listed s listed = elim (Bool-cases ("ADMIN" == s)) [
  | inl e ↦ (admin, rw e refl)
  | inr n ↦ elim (Bool-cases ("USER" == s)) [
    | inl e ↦ (Role.user, rw (n, e) refl)
    | inr m ↦ elim (Bool-cases ("MODERATOR" == s)) [
      | inl e ↦ (Role.moderator, rw (n, m, e) refl)
      | inr l ↦ absurd (ground (arith, listed, n, m, l))
    ]
  ]
]

order_listed :
    (s : String) → includes ("asc" ∷ "desc" ∷ []) s ≡ true → (o : SortOrder) × (order_of s ≡ some o)
order_listed s listed = elim (Bool-cases ("asc" == s)) [
  | inl e ↦ (SortOrder.asc, rw e refl)
  | inr n ↦ elim (Bool-cases ("desc" == s)) [
    | inl e ↦ (SortOrder.desc, rw (n, e) refl)
    | inr m ↦ absurd (ground (arith, listed, n, m))
  ]
]

-- The page and the limit of a query are in range.
abbrev pub InRange : QueryUserDto → Type 0
InRange q = ((n : ℕ) → q.page ≡ some n → 1 ≤ n) × ((n : ℕ) → q.limit ≡ some n → (1 ≤ n) × (n ≤ 100))

module _ (P : ValidationPipe) where
  -- What the pipe lets through of a query string is a query in range.
  pub transform-InRange :
      (body out : Fields)
      → ((key : String) → value_of key body ≢ some null)
      → P.transform query_user_dto body ≡ ok out
      → (q : QueryUserDto) × ((to_query out ≡ some q) × InRange q)
  unfolding query_user_dto to_query
  transform-InRange body out no_null e =
      let held : All (λ p. Accepted p (value_of p.name out)) query_user_dto =
        subst (Ensures (λ o. All (λ p. Accepted p (value_of p.name o)) query_user_dto)) e
          (P.checked query_user_dto body) in
      let there : (key : String) → value_of key out ≢ some null = λ key same. no_null key (
        subst (Ensures (λ o. value_of key o ≡ some null → value_of key body ≡ some null)) e
          (P.null_kept query_user_dto body key) same) in
      let (page, (p, low)) =
        number_typed "page" (min 1 ∷ []) (value_of "page" out) held.0 (there "page") in
      let (limit, (l, within)) =
        number_typed "limit" (min 1 ∷ max 100 ∷ []) (value_of "limit" out) held.1.0
          (there "limit") in
      let (search, t) = text_typed "search" (value_of "search" out) held.1.1.0 (there "search") in
      let (role, r) =
        enum_typed role_of role_values "role" role_listed (value_of "role" out) held.1.1.1.0
          (there "role") in
      let (order, o) =
        enum_typed order_of ("asc" ∷ "desc" ∷ []) "sortOrder" order_listed
          (value_of "sortOrder" out) held.1.1.1.1.0 (there "sortOrder") in
      let (by, b) = text_typed "sortBy" (value_of "sortBy" out) held.1.1.1.1.1.0 (there "sortBy") in
      (
        record {
          page = page;
          limit = limit;
          search = search;
          role = role;
          sort_by = by;
          sort_order = order;
        },
        (
          rw (p, l, t, r, o, b) refl,
          ((λ n e. (low n e).0 n refl), (λ n e. ((within n e).0 n refl, (within n e).1.0 n refl))),
        ),
      )
