-- ===== src/Mask/Tests.antt =====
-- Masking at concrete values.
use backend_boilerplate.Base.{String, refl, ◌≡◌}
use backend_boilerplate.Json.{Json, str, obj, end, field}
use backend_boilerplate.Mask.{
  mask_object, mask_phone, mask_email, mask_text, mask_value, is_sensitive_field, digits_of,
  until_at, after_at,
}

-- Texts in lower case, and texts only as values.
abbrev lower : String → String
lower s = s

abbrev to_text : Json → String
to_text (str s) = s
to_text v = "[object Object]"

abbrev login_body : Json
login_body = obj (
    field "email" (str "a@x.org")
      (field "nested" (obj (field "user_password" (str "secret12") end)) end))

abbrev masked_body : Json
masked_body = obj (
    field "email" (str "a@x.org")
      (field "nested" (obj (field "user_password" (str "se***12") end)) end))

run : Unit {0}
unfolding mask_object mask_value mask_text is_sensitive_field mask_phone mask_email digits_of
    until_at after_at
run = tt

mask_tests :
    (mask_object lower to_text login_body ≡ masked_body)
    × (mask_phone "+82 10-1234-5678" ≡ "***5678")
    × (mask_phone "12" ≡ "***")
    × (mask_email "john@x.org" ≡ "j***n@x.org")
    × (mask_email "jo@x.org" ≡ "***@x.org")
    × (mask_text "abcde" ≡ "ab***de")
unfolding run
mask_tests = (refl, refl, refl, refl, refl, refl)
