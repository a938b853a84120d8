-- ===== src/Auth/Expiry/Format.antt =====
-- The expiration's format: which texts the regular expression accepts, and with what value.
use backend_boilerplate.Base.{
  All, Bool, Bool-cases, List, [], ap, arith, false, inl, inr, refl, some, true, ℕ, ◌*◌, ◌++◌, ◌+◌,
  ◌-◌, ◌↔◌, ◌∷◌, ◌≡◌, ◌≢◌, ◌⊎◌,
}
use backend_boilerplate.Auth.Expiry.{
  TimeUnit, d, h, m, s, digit, unit_of, scan, closing, expires_match,
}

-- The value of a run of decimal digits after those that make up `value`.
abbrev pub decimal_from : ℕ → List ℕ → ℕ
decimal_from value [] = value
decimal_from value (c ∷ cs) = decimal_from (value * 10 + (c - 48)) cs

abbrev pub letter : TimeUnit → ℕ
letter d = b'd'
letter h = b'h'
letter m = b'm'
letter s = b's'

unit_of-letter : (u : TimeUnit) → unit_of (letter u) ≡ some u
unfolding unit_of
unit_of-letter d = refl
unit_of-letter h = refl
unit_of-letter m = refl
unit_of-letter s = refl

scan_complete :
    (seen : Bool) (value : ℕ) (ds : List ℕ) (u : TimeUnit)
    → All (λ c. digit c ≡ true) ds
    → (seen ≡ true) ⊎ (ds ≢ [])
    → scan seen value (ds ++ letter u ∷ []) ≡ some (decimal_from value ds, u)
unfolding scan closing
scan_complete seen value [] d _ start = ground (arith, unit_of-letter d)
scan_complete seen value [] h _ start = ground (arith, unit_of-letter h)
scan_complete seen value [] m _ start = ground (arith, unit_of-letter m)
scan_complete seen value [] s _ start = ground (arith, unit_of-letter s)
scan_complete seen value (c ∷ ds) u (is_digit, rest) start =
    rw is_digit (scan_complete true (value * 10 + (c - 48)) ds u rest (inl refl))

expires_match_complete :
    (ds : List ℕ) (u : TimeUnit)
    → ds ≢ []
    → All (λ x. digit x ≡ true) ds
    → expires_match (ds ++ letter u ∷ []) ≡ some (decimal_from 0 ds, u)
unfolding expires_match
expires_match_complete ds u some_digit all = scan_complete false 0 ds u all (inr some_digit)

-- What was accepted: digits and a unit's letter.
record Accepted (seen : Bool) (value : ℕ) (cs : List ℕ) (n : ℕ) (u : TimeUnit) : Type 0 where
  digits : List ℕ
  all : All (λ c. digit c ≡ true) digits
  shape : cs ≡ digits ++ letter u ∷ []
  value_is : n ≡ decimal_from value digits
  start : (seen ≡ true) ⊎ (digits ≢ [])

closing_sound :
    (value c : ℕ) (cs : List ℕ) (n : ℕ) (u : TimeUnit)
    → closing value c cs ≡ some (n, u)
    → (n ≡ value) × (c ≡ letter u) × (cs ≡ [])
unfolding closing unit_of
closing_sound value c [] n u e = ground arith
closing_sound value c (x ∷ cs) n u e = ground arith

scan_sound :
    (seen : Bool) (value : ℕ) (cs : List ℕ) (n : ℕ) (u : TimeUnit)
    → scan seen value cs ≡ some (n, u)
    → Accepted seen value cs n u
unfolding scan
scan_sound seen value [] n u e = absurd (ground arith)
scan_sound seen value (c ∷ cs) n u e = elim (Bool-cases (digit c)) [
  | inl yes_digit ↦
      let a = scan_sound true (value * 10 + (c - 48)) cs n u (rw yes_digit at e) in
      record {
        digits = c ∷ a.digits;
        all = (yes_digit, a.all);
        shape = ap (◌∷◌ c) a.shape;
        value_is = a.value_is;
        start = inr (λ x. cc x);
      }
  | inr no_digit ↦ elim (Bool-cases seen) [
    | inl begun ↦
        let (v, l, nil) = closing_sound value c cs n u (rw (no_digit, begun) at e) in
        record { digits = []; all = tt; shape = rw (l, nil) refl; value_is = v; start = inl begun }
    | inr not_begun ↦ absurd (ground arith)
  ]
]

expires_match_sound :
    (cs : List ℕ) (n : ℕ) (u : TimeUnit)
    → expires_match cs ≡ some (n, u)
    → (ds : List ℕ) × (ds ≢ [])
      × All (λ x. digit x ≡ true) ds
      × (cs ≡ ds ++ letter u ∷ [])
      × (n ≡ decimal_from 0 ds)
unfolding expires_match
expires_match_sound cs n u e =
    let a = scan_sound false 0 cs n u e in
    (a.digits, ground (arith, a.start), a.all, a.shape, a.value_is)

-- The expression accepts exactly one or more decimal digits followed by one of the letters d, h, m
-- and s, and it gives the value of the digits and the unit of the letter.
pub expires_match_iff :
    (cs : List ℕ) (n : ℕ) (u : TimeUnit)
    → (expires_match cs ≡ some (n, u)) ↔ (
        (ds : List ℕ) × (ds ≢ [])
        × All (λ x. digit x ≡ true) ds
        × (cs ≡ ds ++ letter u ∷ [])
        × (n ≡ decimal_from 0 ds))
expires_match_iff cs n u = (
  expires_match_sound cs n u,
  (λ (ds, some_digit, all, shape, value).
      rw (shape, value) (expires_match_complete ds u some_digit all)),
)
