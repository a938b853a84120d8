-- ===== src/Streaming/Numbers.antt =====
-- JavaScript's numbers as far as a range needs them: integers, with none for NaN, exact below 2^53,
-- and `parseInt` in base 10.
use Prim.Native.Char.{code}
use backend_boilerplate.Base.{
  Bool, Option, String, if◌then◌else◌, leb, nat_eq, none, some, suc, zero, ℕ, ◌&&◌, ◌*◌, ◌+◌, ◌-◌,
  ◌||◌,
}

pub data ℤ : Type 0 where
  pos : ℕ → ℤ
  negsuc : ℕ → ℤ

-- The difference of two naturals.
unfoldable pub diff : ℕ → ℕ → ℤ
diff a b = if leb b a then pos (a - b) else negsuc (b - a - 1)

infixl 6 ◌+ℤ◌ ◌-ℤ◌
unfoldable pub ◌+ℤ◌ : ℤ → ℤ → ℤ
unfolding diff
pos a +ℤ pos b = pos (a + b)
pos a +ℤ negsuc b = diff a (suc b)
negsuc a +ℤ pos b = diff b (suc a)
negsuc a +ℤ negsuc b = negsuc (suc (a + b))

unfoldable pub ◌-ℤ◌ : ℤ → ℤ → ℤ
unfolding diff
pos a -ℤ pos b = diff a b
pos a -ℤ negsuc b = pos (suc (a + b))
negsuc a -ℤ pos b = negsuc (a + b)
negsuc a -ℤ negsuc b = diff b a

abbrev pub Number : Type 0
Number = Option ℤ

abbrev pub plus : Number → Number → Number
plus (some a) (some b) = some (a +ℤ b)
plus _ _ = none

abbrev pub minus : Number → Number → Number
minus (some a) (some b) = some (a -ℤ b)
minus _ _ = none

abbrev pub is_digit : ℕ → Bool
is_digit c = leb b'0' c && leb c b'9'

-- The number that the digits in front spell, after the digits so far.
unfoldable pub leading : Option ℕ → String → Option ℕ
leading n String.[] = n
leading n (String.◌∷◌ c s) =
    let more = leading (some ((elim n [ none ↦ 0 | some v ↦ v * 10 ]) + (code c - b'0'))) s in
    if is_digit (code c) then more else n

unfoldable pub unsigned : String → Option ℕ
unfolding leading
unsigned String.[] = none
unsigned (String.◌∷◌ c s) =
    if nat_eq (code c) b'+' then leading none s else leading none (String.◌∷◌ c s)

-- `parseInt` of a text that does not start with a minus sign, white space aside.
unfoldable pub parse_natural : String → Option ℕ
unfolding unsigned
parse_natural String.[] = none
parse_natural (String.◌∷◌ c s) =
    let rest = parse_natural s in
    if nat_eq (code c) 32 || (leb 9 (code c) && leb (code c) 13)
    then rest
    else unsigned (String.◌∷◌ c s)

abbrev pub as_number : Option ℕ → Number
as_number none = none
as_number (some n) = some (pos n)

abbrev pub negated : Option ℕ → Number
negated none = none
negated (some zero) = some (pos 0)
negated (some (suc n)) = some (negsuc n)

-- `parseInt(s, 10)`
unfoldable pub parse_int : String → Number
unfolding unsigned leading
parse_int String.[] = none
parse_int (String.◌∷◌ c s) =
    let rest = parse_int s in
    if nat_eq (code c) 32 || (leb 9 (code c) && leb (code c) 13)
    then rest
    else if nat_eq (code c) b'-'
    then negated (leading none s)
    else as_number (unsigned (String.◌∷◌ c s))
