-- ===== src/Websocket/Registry.antt =====
-- Deleting from and inserting into the ids of the registered clients.
use backend_boilerplate.Base.{
  Bool-cases, List, String, [], arith, false, if◌then◌else◌, includes, inl, inr, length, refl, suc,
  true, ◌++◌, ◌==◌, ◌||◌, ◌∷◌, ◌≡◌,
}
use text.Mathlib.TextEquality.{eq_iff}
use backend_boilerplate.Websocket.{remove, insert}

abbrev pub Distinct : List String → Type 0
Distinct [] = Unit {0}
Distinct (x ∷ xs) = (includes xs x ≡ false) × Distinct xs

pub includes-remove :
    (x y : String) (xs : List String)
    → includes (remove x xs) y ≡ (if y == x then false else includes xs y)
includes-remove x y [] = ground arith
includes-remove x y (z ∷ zs) =
    ground (arith, includes-remove x y zs, eq_iff z x, eq_iff z y, eq_iff y x)

pub Distinct-remove : (x : String) (xs : List String) → Distinct xs → Distinct (remove x xs)
Distinct-remove x [] d = tt
Distinct-remove x (y ∷ ys) (new, d) = elim (Bool-cases (y == x)) [
  | inl same ↦ rw same (Distinct-remove x ys d)
  | inr other ↦ rw other (ground (arith, includes-remove x y ys), Distinct-remove x ys d)
]

remove-absent : (x : String) (xs : List String) → includes xs x ≡ false → remove x xs ≡ xs
remove-absent x [] h = refl
remove-absent x (y ∷ ys) h = ground (arith, remove-absent x ys)

pub length-remove :
    (x : String) (xs : List String)
    → Distinct xs
    → includes xs x ≡ true
    → length xs ≡ suc (length (remove x xs))
length-remove x [] d h = absurd (ground arith)
length-remove x (y ∷ ys) (new, d) h = elim (Bool-cases (y == x)) [
  | inl same ↦ ground (arith, remove-absent x ys, eq_iff y x)
  | inr other ↦ ground (arith, length-remove x ys d)
]

includes-snoc :
    (x y : String) (xs : List String) → includes (xs ++ x ∷ []) y ≡ (includes xs y || x == y)
includes-snoc x y [] = ground arith
includes-snoc x y (z ∷ zs) = ground (arith, includes-snoc x y zs)

Distinct-snoc :
    (x : String) (xs : List String) → Distinct xs → includes xs x ≡ false → Distinct (xs ++ x ∷ [])
Distinct-snoc x [] d h = (refl, tt)
Distinct-snoc x (y ∷ ys) (new, d) h = (
  ground (arith, includes-snoc x y ys, eq_iff x y, eq_iff y x),
  Distinct-snoc x ys d (ground arith),
)

pub Distinct-insert : (x : String) (xs : List String) → Distinct xs → Distinct (insert x xs)
Distinct-insert x xs d = elim (Bool-cases (includes xs x)) [
  | inl old ↦ rw old d
  | inr new ↦ rw new (Distinct-snoc x xs d new)
]

pub includes-insert :
    (x y : String) (xs : List String) → includes (insert x xs) y ≡ (includes xs y || x == y)
includes-insert x y xs = ground (arith, includes-snoc x y xs, eq_iff x y)
