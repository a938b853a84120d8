-- ===== src/Mask/Disclosure.antt =====
-- What a masked phone number tells of the number.
use Prim.Native.String.{◌++◌ as str_append}
use backend_boilerplate.Base.{
  text_length-append, drop_text-append, text_length-drop, text_length, drop_text, refl, false, ap,
  ltb, inl, eq_iff, inr, truthy, Bool-cases, String, arith, sym, ◌-◌, ◌∙◌, ◌≡◌, ◌≤◌,
}
use backend_boilerplate.Mask.{digits_of, mask_phone}

tail_of :
    (a t : String)
    → text_length t ≡ 4
    → drop_text (text_length (str_append a t) - 4) (str_append a t) ≡ t
tail_of a t four =
    let lead : text_length (str_append a t) - 4 ≡ text_length a =
      omega (arith, four, text_length-append a t) in
    rw lead (drop_text-append a t)

mask_phone_tail :
    (p a t : String)
    → digits_of p ≡ str_append a t
    → text_length t ≡ 4
    → mask_phone p ≡ str_append "***" t
unfolding mask_phone digits_of
mask_phone_tail p a t digits four = elim (Bool-cases (truthy p)) [
  | inr empty ↦
      let nothing : p ≡ "" = ground (arith, eq_iff p "") in
      absurd (
        omega (
          arith,
          four,
          text_length-append a t,
          ap text_length (sym (ap digits_of nothing) ∙ digits),
        ))
  | inl given ↦
      let enough : ltb (text_length (str_append a t)) 4 ≡ false =
        ground (arith, text_length-append a t) in
      rw (given, digits, enough, tail_of a t four) refl
]

-- Two phone numbers with the same last four digits have the same mask, whatever the other digits
-- and the other characters are.
pub mask_phone_hides :
    (p q a b t : String)
    → digits_of p ≡ str_append a t
    → digits_of q ≡ str_append b t
    → text_length t ≡ 4
    → mask_phone p ≡ mask_phone q
mask_phone_hides p q a b t dp dq four =
    mask_phone_tail p a t dp four ∙ sym (mask_phone_tail q b t dq four)

-- A mask of a phone number has seven characters at most.
pub mask_phone_bound : (p : String) → text_length (mask_phone p) ≤ 7
unfolding mask_phone
mask_phone_bound p = elim (Bool-cases (truthy p)) [
  | inr empty ↦ rw empty (omega arith)
  | inl given ↦ elim (Bool-cases (ltb (text_length (digits_of p)) 4)) [
    | inl few ↦ rw (given, few) (omega arith)
    | inr enough ↦
        let shown : String = drop_text (text_length (digits_of p) - 4) (digits_of p) in
        rw (given, enough)
          (omega (
            arith,
            text_length-append "***" shown,
            text_length-drop (text_length (digits_of p) - 4) (digits_of p),
          ))
  ]
]
