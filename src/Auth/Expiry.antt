-- ===== src/Auth/Expiry.antt =====
-- `saveRefreshToken` of src/domains/auth/application/auth.service.ts: the expiration of a refresh
-- token. Dates are milliseconds in UTC.
pub mod Format
use Prim.Native.Char.{code}
use Prim.Native.String
use mathlib.Core.Option
use backend_boilerplate.Base.{
  ℕ, ◌+◌, ◌-◌, ◌*◌, ◌≡◌, ◌≤◌, Bool, true, false, ◌&&◌, Option, none, some, List, [], ◌∷◌, String,
  leb, nat_eq, if◌then◌else◌, Result, ok, throw, error, arith,
}
use backend_boilerplate.Auth.Types.{ExpiresIn, text, number, missing}

abbrev pub codes : String → List ℕ
codes String.[] = []
codes (String.◌∷◌ c s) = code c ∷ codes s

infix 50 ◌==◌
abbrev ◌==◌ : ℕ → ℕ → Bool
a == b = nat_eq a b

abbrev pub digit : ℕ → Bool
digit c = leb b'0' c && leb c b'9'

pub data TimeUnit : Type 0 where
  d h m s : TimeUnit

pub unit_of : ℕ → Option TimeUnit
unit_of c =
    if c == b'd'
    then some d
    else if c == b'h'
    then some h
    else if c == b'm'
    then some m
    else if c == b's'
    then some s
    else none

-- `$` after the unit: nothing may follow it.
closing : ℕ → ℕ → List ℕ → Option (ℕ × TimeUnit)
closing value c [] = Option.map (λ unit. (value, unit)) (unit_of c)
closing value c (_ ∷ _) = none

-- `seen` tells whether `\d+` has taken a digit, `value` what `Number.parseInt` makes of them.
scan : Bool → ℕ → List ℕ → Option (ℕ × TimeUnit)
scan seen value [] = none
scan seen value (c ∷ cs) =
    if digit c
    then scan true (value * 10 + (c - 48)) cs
    else if seen
    then closing value c cs
    else none

-- `/^(\d+)([dhms])$/.exec(expiresIn)`
unfoldable pub expires_match : List ℕ → Option (ℕ × TimeUnit)
unfolding scan closing unit_of
expires_match cs = scan false 0 cs

-- Milliseconds in a unit.
abbrev pub span : TimeUnit → ℕ
span d = 86400000
span h = 3600000
span m = 60000
span s = 1000

-- The last millisecond that a `Date` can hold; any later one is an Invalid Date, which the Prisma
-- client refuses.
abbrev pub max_date : ℕ
max_date = 8640000000000000

valid_date : ℕ → Result ℕ
valid_date time =
    if leb time max_date then ok time else throw (error "Invalid value for argument `expiresAt`")

from_match : ℕ → Option (ℕ × TimeUnit) → Result ℕ
from_match now none = throw (error "Invalid refresh token expiration format")
from_match now (some (value, unit)) = valid_date (now + value * span unit)

unfoldable pub expires_at : ExpiresIn → ℕ → Result ℕ
unfolding from_match valid_date
expires_at (text t) now = from_match now (expires_match (codes t))
expires_at e now = throw (error "Refresh token expiration must be a string like 7d")
