-- ===== src/Base/Texts.antt =====
-- Texts as sequences of code points.
use Prim.Native.Nat.{ℕ, zero, suc, ◌+◌, ◌-◌}
use mathlib.Core.Path.{◌≡◌, refl, sym, ◌∙◌}
use native.Mathlib.Omega.{arith}
use text.Mathlib.TextLemmas.{nil-append, cons-append}
use text.Mathlib.TextPositions.{starts_with-append}
use Prim.Native.String.{◌++◌ as str_append}
use Prim.Native.String.{String}
use mathlib.Core.Bool.{Bool, true, ◌||◌}
use text.Mathlib.Text.{starts_with}
use backend_boilerplate.Base.Tests.{if◌then◌else◌}

abbrev pub text_length : String → ℕ
text_length String.[] = 0
text_length (String.◌∷◌ c s) = suc (text_length s)

-- `substring(0, n)` and `substring(n)`
abbrev pub take_text : ℕ → String → String
take_text zero s = String.[]
take_text (suc n) String.[] = String.[]
take_text (suc n) (String.◌∷◌ c s) = String.◌∷◌ c (take_text n s)

abbrev pub drop_text : ℕ → String → String
drop_text zero s = s
drop_text (suc n) String.[] = String.[]
drop_text (suc n) (String.◌∷◌ c s) = drop_text n s

-- `includes`
abbrev pub includes_text : String → String → Bool
includes_text String.[] t = starts_with String.[] t
includes_text (String.◌∷◌ c s) t = starts_with (String.◌∷◌ c s) t || includes_text s t

-- `s.replace(p, '')`, of a text: its first occurrence.
unfoldable pub remove_first : String → String → String
remove_first p String.[] = String.[]
remove_first p (String.◌∷◌ c s) =
    let rest = remove_first p s in
    if starts_with (String.◌∷◌ c s) p
    then drop_text (text_length p) (String.◌∷◌ c s)
    else String.◌∷◌ c rest

pub text_length-append :
    (s t : String) → text_length (str_append s t) ≡ text_length s + text_length t
text_length-append String.[] t = rw (nil-append t) (omega arith)
text_length-append (String.◌∷◌ c s) t =
    rw (cons-append c s t) (omega (arith, text_length-append s t))

pub drop_text-append : (s t : String) → drop_text (text_length s) (str_append s t) ≡ t
drop_text-append String.[] t = rw (nil-append t) refl
drop_text-append (String.◌∷◌ c s) t = rw (cons-append c s t) (drop_text-append s t)

pub text_length-drop : (n : ℕ) (s : String) → text_length (drop_text n s) ≡ text_length s - n
text_length-drop zero s = omega arith
text_length-drop (suc n) String.[] = omega arith
text_length-drop (suc n) (String.◌∷◌ c s) = omega (arith, text_length-drop n s)

drop_text-nil : (n : ℕ) → drop_text n String.[] ≡ String.[]
drop_text-nil zero = refl
drop_text-nil (suc n) = refl

removed : (p s : String) → starts_with s p ≡ true → remove_first p s ≡ drop_text (text_length p) s
unfolding remove_first
removed p String.[] h = sym (drop_text-nil (text_length p))
removed p (String.◌∷◌ c s) h = rw h refl

-- A prefix is removed.
pub remove_first-append : (p t : String) → remove_first p (str_append p t) ≡ t
remove_first-append p t = removed p (str_append p t) (starts_with-append p t) ∙ drop_text-append p t
