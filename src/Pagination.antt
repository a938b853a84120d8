-- ===== src/Pagination.antt =====
-- Paging, as `findAll` of src/domains/user/application/user.service.ts and of
-- src/infra/audit/application/audit.service.ts computes it (`PaginationMeta` is that of
-- src/shared/interfaces/response.interface.ts). Pages and limits are whole numbers from 0.
pub mod Complete
use backend_boilerplate.Base.{
  All, ℕ, ◌+◌, ◌-◌, ◌*◌, ◌/◌, ◌≡◌, Bool, false, true, Option, none, some, List, [], ◌∷◌, zero, suc,
  ltb, nat_eq, length, if◌then◌else◌, Result, Ensures,
}

-- `Math.ceil(total / limit)`, which is `Infinity` or `NaN` at a limit of 0.
pub data PageCount : Type 0 where
  finite : ℕ → PageCount
  infinity nan : PageCount

pub record PaginationMeta : Type 0 where
  pub page : ℕ
  pub limit : ℕ
  pub total : ℕ
  pub total_pages : PageCount
  pub has_next : Bool
  pub has_prev : Bool

unfoldable pub page_count : ℕ → ℕ → PageCount
page_count total limit =
    if nat_eq limit 0
    then (if nat_eq total 0 then nan else infinity)
    else finite ((total + (limit - 1)) / limit)

-- `page < totalPages`
abbrev pub before : ℕ → PageCount → Bool
before page (finite n) = ltb page n
before page infinity = true
before page nan = false

unfoldable pub page_meta : ℕ → ℕ → ℕ → PaginationMeta
unfolding page_count
page_meta page limit total = record {
  page = page;
  limit = limit;
  total = total;
  total_pages = page_count total limit;
  has_next = before page (page_count total limit);
  has_prev = ltb 1 page;
}

-- `(page - 1) * limit`, or `none` where that is negative.
unfoldable pub skip_of : ℕ → ℕ → Option ℕ
skip_of zero limit = if nat_eq limit 0 then some 0 else none
skip_of (suc p) limit = some (p * limit)

module _ {ℓ} {A : Type ℓ} where
  abbrev pub take : ℕ → List A → List A
  take zero xs = []
  take (suc n) [] = []
  take (suc n) (x ∷ xs) = x ∷ take n xs

  abbrev pub drop : ℕ → List A → List A
  drop zero xs = xs
  drop (suc n) [] = []
  drop (suc n) (x ∷ xs) = drop n xs

-- What a `skip` selects: a negative one is refused by the Prisma client.
abbrev pub Window : {A : Type 0} → Option ℕ → ℕ → List A → List A → Type 0
Window none n all found = ⊥
Window (some k) n all found = found ≡ take n (drop k all)

-- No two rows are of one rank.
abbrev pub Untied : {A : Type 0} → (A → ℕ) → List A → Type 0
Untied rank xs = All (λ a. All (λ b. rank a ≡ rank b → a ≡ b) xs) xs

-- `count` and `findMany` of a Prisma model. `matching` is all rows that match a filter, in the order
-- in which the database takes them for a query with this `skip` and this limit. Rows of one rank have
-- the same value in the column of the order: between two queries the database may swap them, and
-- only where there are none is the order one for all.
pub record Listing (S W O A : Type 0) : Type 0 where
  pub matching : S → W → O → (skip : Option ℕ) → (limit : ℕ) → List A
  pub rank : O → A → ℕ
  pub count : S → W → Result ℕ
  pub find_many : S → W → O → (skip : Option ℕ) → (limit : ℕ) → Result (List A)
  pub count_lem :
      (s : S) (w : W) (o : O) (k : Option ℕ) (n : ℕ)
      → Ensures (λ total. total ≡ length (matching s w o k n)) (count s w)
  pub find_many_lem :
      (s : S) (w : W) (o : O) (k : Option ℕ) (n : ℕ)
      → Ensures (Window k n (matching s w o k n)) (find_many s w o k n)
  pub untied_order :
      (s : S) (w : W) (o : O) (k j : Option ℕ) (n m : ℕ)
      → Untied (rank o) (matching s w o k n)
      → matching s w o j m ≡ matching s w o k n
