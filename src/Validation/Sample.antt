-- ===== src/Validation/Sample.antt =====
-- A pipe that tests every check and converts nothing.
use backend_boilerplate.Base.{
  Bool-cases, eq_iff, subst, http, ◌==◌, throw, Ensures, Result, ok, any, [], none, ◌∷◌, inr, inl,
  String, ◌⊎◌, some, All, List, Option, Bool, arith, false, includes, leb, refl, text_length, true,
  ℕ, ◌≡◌,
}
use backend_boilerplate.Json.{Json, null, bool, num, str, Fields, end, field, value_of}
use backend_boilerplate.Validation.{
  Check, is_int, is_string, is_email, is_boolean, is_enum, min_length, min, max, Property, Passes,
  Accepted, ValidationPipe,
}

abbrev decided : (b : Bool) → Option (b ≡ true)
decided true = some refl
decided false = none

at_least : (k : ℕ) (v : Json) → Option (Passes (min k) v)
at_least k (num n) = elim (decided (leb k n)) [
  | some e ↦ some (λ m same. ground arith)
  | none ↦ none
]
at_least k v = none

at_most : (k : ℕ) (v : Json) → Option (Passes (max k) v)
at_most k (num n) = elim (decided (leb n k)) [
  | some e ↦ some (λ m same. ground arith)
  | none ↦ none
]
at_most k v = none

listed : (ts : List String) (v : Json) → Option (Passes (is_enum ts) v)
listed ts (str s) = elim (decided (includes ts s)) [ some e ↦ some (s, (refl, e)) | none ↦ none ]
listed ts v = none

long : (k : ℕ) (v : Json) → Option (Passes (min_length k) v)
long k (str s) = elim (decided (leb k (text_length s))) [
  | some e ↦ some (s, (refl, ground arith))
  | none ↦ none
]
long k v = none

passed : (c : Check) (v : Json) → Option (Passes c v)
unfolding at_least at_most listed long
passed is_string (str s) = some (s, refl)
passed is_email (str s) = some (s, refl)
passed is_boolean (bool b) = some (b, refl)
passed is_int (num n) = some (n, refl)
passed (min_length k) v = long k v
passed (min k) v = at_least k v
passed (max k) v = at_most k v
passed (is_enum ts) v = listed ts v
passed c v = none

both : {A B : Type 0} → Option A → Option B → Option (A × B)
both (some a) (some b) = some (a, b)
both _ _ = none

all_passed : (cs : List Check) (v : Json) → Option (All (λ c. Passes c v) cs)
unfolding passed both
all_passed [] v = some tt
all_passed (c ∷ cs) v = both (passed c v) (all_passed cs v)

right : {A B : Type 0} → Option B → Option (A ⊎ B)
right none = none
right (some b) = some (inr b)

accepted : (p : Property) (o : Option Json) → Option (Accepted p o)
unfolding all_passed right
accepted p none = elim (decided p.optional) [ some e ↦ some e | none ↦ none ]
accepted p (some null) = elim (decided p.optional) [
  | some e ↦ some (inl (e, refl))
  | none ↦ right (all_passed p.checks null)
]
accepted p (some v) = right (all_passed p.checks v)

all_accepted :
    (dto : List Property) (body : Fields)
    → Option (All (λ p. Accepted p (value_of p.name body)) dto)
unfolding accepted both
all_accepted [] body = some tt
all_accepted (p ∷ dto) body = both (accepted p (value_of p.name body)) (all_accepted dto body)

abbrev Known : List Property → Fields → Type 0
Known dto body =
    (key : String) (v : Json) → value_of key body ≡ some v → any (λ p. p.name == key) dto ≡ true

pub known_field :
    (dto : List Property) (k : String) (j : Json) (body : Fields)
    → any (λ p. p.name == k) dto ≡ true
    → Known dto body
    → Known dto (field k j body)
known_field dto k j body here there key v e = elim (Bool-cases (k == key)) [
  | inl same ↦ subst (λ x. any (λ p. p.name == x) dto ≡ true) ((eq_iff k key).0 same) here
  | inr differ ↦ there key v (ground (arith, differ))
]

known : (dto : List Property) (body : Fields) → Option (Known dto body)
known dto end = some (λ key v e. absurd (ground arith))
known dto (field k j body) =
    let rest = known dto body in
    elim (decided (any (λ p. p.name == k) dto)) [
      | some here ↦ elim rest [
        | some there ↦ some (known_field dto k j body here there)
        | none ↦ none
      ]
      | none ↦ none
    ]

-- 400 with the messages of the checks that fail.
verdict : {A B : Type 0} → Fields → Option A → Option B → Result Fields
verdict body (some _) (some _) = ok body
verdict body _ _ = throw (http 400 "Bad Request")

unfoldable pub pipe : ValidationPipe
unfolding all_accepted known verdict
pipe = record {
  transform = λ dto body. verdict body (known dto body) (all_accepted dto body);
  whitelist = λ dto body key. listed_only dto body (known dto body) (all_accepted dto body) key;
  checked = λ dto body. held dto body (known dto body) (all_accepted dto body);
  null_kept = λ dto body key. unchanged body (known dto body) (all_accepted dto body) key;
}
  where
    listed_only :
        (dto : List Property) (body : Fields) {B : Type 0} (a : Option (Known dto body))
        (b : Option B) (key : String)
        → Ensures
            (λ out. (v : Json) → value_of key out ≡ some v → any (λ p. p.name == key) dto ≡ true)
            (verdict body a b)
    listed_only dto body (some a) (some b) key = a key
    listed_only dto body (some a) none key = tt
    listed_only dto body none b key = tt

    held :
        (dto : List Property) (body : Fields) {A : Type 0} (a : Option A)
        (b : Option (All (λ p. Accepted p (value_of p.name body)) dto))
        → Ensures (λ out. All (λ p. Accepted p (value_of p.name out)) dto) (verdict body a b)
    held dto body (some a) (some b) = b
    held dto body (some a) none = tt
    held dto body none b = tt

    unchanged :
        (body : Fields) {A B : Type 0} (a : Option A) (b : Option B) (key : String)
        → Ensures
            (λ out. value_of key out ≡ some null → value_of key body ≡ some null)
            (verdict body a b)
    unchanged body (some a) (some b) key = λ e. e
    unchanged body (some a) none key = tt
    unchanged body none b key = tt
