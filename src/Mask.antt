-- ===== src/Mask.antt =====
-- src/shared/utils/mask.util.ts. A text is the sequence of its UTF-16 units, as in JavaScript: each
-- character of a `String` here stands for one unit, two of them for a letter beyond U+FFFF. How a letter is lowered and how
-- a value is printed (`toLowerCase`, `String`) are parameters.
mod Texts
mod Disclosure
pub mod Objects
mod Tests
use Prim.Native.Char.{Char, code}
use Prim.Native.String
use Prim.Native.String.{◌++◌ as str_append}
use text.Mathlib.Text.{starts_with}
use backend_boilerplate.Base.{
  text_length, take_text, drop_text, includes_text, zero, Bool, List, Option, String, [], any,
  if◌then◌else◌, leb, length, ltb, nat_eq, none, some, suc, truthy, ℕ, ◌&&◌, ◌*◌, ◌-◌, ◌||◌, ◌∷◌,
}
use backend_boilerplate.Json.{
  Json, null, bool, num, str, arr, obj, Items, nil, cons, Fields, end, field, truthy_json,
}

abbrev pub sensitive_fields : List String
sensitive_fields =
    "password" ∷ "token" ∷ "secret" ∷ "authorization" ∷ "cookie" ∷ "api_key" ∷ "apiKey"
    ∷ "accessToken" ∷ "refreshToken" ∷ "creditCard" ∷ "ssn" ∷ []

-- The first two and the last two characters of a text of more than four.
unfoldable pub mask_text : String → String
mask_text s =
    if leb (text_length s) 4
    then "***"
    else str_append (take_text 2 s) (str_append "***" (drop_text (text_length s - 2) s))

module _ (lower : String → String) (to_text : Json → String) where
  unfoldable pub is_sensitive_field : String → Bool
  is_sensitive_field name =
      any (λ sensitive. includes_text (lower name) (lower sensitive)) sensitive_fields

  unfoldable pub mask_value : Json → String
  mask_value value = if truthy_json value then mask_text (to_text value) else "***"

  unfoldable mutual
    unfolding mask_value is_sensitive_field

    pub mask_object : Json → Json
    mask_object null = null
    mask_object (bool b) = bool b
    mask_object (num n) = num n
    mask_object (str s) = str s
    mask_object (arr xs) = arr (mask_items xs)
    mask_object (obj fs) = obj (mask_fields fs)

    pub mask_items : Items → Items
    mask_items nil = nil
    mask_items (cons x xs) = cons (mask_object x) (mask_items xs)

    -- A value that is no object is kept as it is, which `mask_object` does too.
    pub mask_fields : Fields → Fields
    mask_fields end = end
    mask_fields (field k v fs) =
        field k (if is_sensitive_field k then str (mask_value v) else mask_object v)
          (mask_fields fs)

-- `replace(/\D/g, '')`
abbrev is_digit : ℕ → Bool
is_digit c = leb b'0' c && leb c b'9'

pub digits_of : String → String
digits_of String.[] = String.[]
digits_of (String.◌∷◌ c s) =
    let rest = digits_of s in if is_digit (code c) then String.◌∷◌ c rest else rest

pub mask_phone : String → String
mask_phone phone =
    if truthy phone
    then if ltb (text_length (digits_of phone)) 4
      then "***"
      else str_append "***" (drop_text (text_length (digits_of phone) - 4) (digits_of phone))
    else "***"

-- `split('@')`: the part before the first sign, and the part between it and the next one.
pub until_at : String → String
until_at String.[] = String.[]
until_at (String.◌∷◌ c s) =
    let rest = until_at s in if nat_eq (code c) b'@' then String.[] else String.◌∷◌ c rest

pub after_at : String → Option String
after_at String.[] = none
after_at (String.◌∷◌ c s) = let rest = after_at s in if nat_eq (code c) b'@' then some s else rest

-- `${localPart[0]}***${localPart[localPart.length - 1]}` of a part of more than two characters.
abbrev masked_local : String → String
masked_local part =
    if ltb 2 (text_length part)
    then str_append (take_text 1 part) (str_append "***" (drop_text (text_length part - 1) part))
    else "***"

pub mask_email : String → String
unfolding until_at after_at
mask_email email = elim (after_at email) [
  | none ↦ "***"
  | some rest ↦ str_append (masked_local (until_at email)) (str_append "@" (until_at rest))
]
