-- ===== src/Mask/Texts.antt =====
-- Lemmas on the parts of a text.
use Prim.Native.Char.{Char}
use Prim.Native.String.{◌++◌ as str_append}
use text.Mathlib.TextLemmas.{nil-append, cons-append, cons-ne-nil}
use backend_boilerplate.Base.{
  text_length-append, drop_text-append, text_length-drop, text_length, take_text, drop_text, eq_iff,
  ◌∙◌, sym, ◌≢◌, true, truthy, ◌⊎◌, inr, inl, leb, Bool-cases, String, arith, refl, suc, ◌-◌, ◌≡◌,
}
use backend_boilerplate.Mask.{mask_text}

pub take_text-append_two :
    (a b : Char) (t : String)
    → take_text 2 (str_append (String.◌∷◌ a (String.◌∷◌ b String.[])) t)
      ≡ String.◌∷◌ a (String.◌∷◌ b String.[])
take_text-append_two a b t = rw (cons-append, cons-append) refl

-- What a text of more than four characters shows: two at each end.
abbrev ends : Char → Char → String → String
ends a b z = str_append (String.◌∷◌ a (String.◌∷◌ b String.[])) (str_append "***" z)

mask_text_wrapped :
    (a b : Char) (z : String) → text_length z ≡ 2 → mask_text (ends a b z) ≡ ends a b z
unfolding mask_text
mask_text_wrapped a b z e =
    let size : text_length (ends a b z) ≡ 7 = omega (
      arith,
      e,
      text_length-append (String.◌∷◌ a (String.◌∷◌ b String.[])) (str_append "***" z),
      text_length-append "***" z,
    ) in
    let tail : drop_text 5 (ends a b z) ≡ z =
      simp (cons-append, nil-append) (drop_text-append "***" z) in
    rw (size, take_text-append_two a b (str_append "***" z), tail) refl

-- What is left of a text: nothing, or its two first and its two last characters.
abbrev pub IsMask : String → String → Type 0
IsMask s t =
    (t ≡ "***")
    ⊎ ((a : Char) × (b : Char) × (z : String) × ((t ≡ ends a b z)
          × (text_length z ≡ 2)
          × (take_text 2 s ≡ String.◌∷◌ a (String.◌∷◌ b String.[]))
          × (z ≡ drop_text (text_length s - 2) s)))

pub mask_text-IsMask : (s : String) → IsMask s (mask_text s)
unfolding mask_text
mask_text-IsMask String.[] = inl refl
mask_text-IsMask (String.◌∷◌ a String.[]) = inl refl
mask_text-IsMask (String.◌∷◌ a (String.◌∷◌ b s)) =
    elim (Bool-cases (leb (suc (suc (text_length s))) 4)) [
      | inl short ↦ inl (rw short refl)
      | inr long ↦
          let whole : String = String.◌∷◌ a (String.◌∷◌ b s) in
          let z : String = drop_text (text_length whole - 2) whole in
          let two : text_length z ≡ 2 =
            ground (arith, text_length-drop (text_length whole - 2) whole) in
          inr (a, b, z, (rw long refl, two, refl, refl))
    ]

pub mask_text_stars : mask_text "***" ≡ "***"
unfolding mask_text
mask_text_stars = refl

-- A masked text is its own mask.
pub mask_text_idem : (s : String) → mask_text (mask_text s) ≡ mask_text s
mask_text_idem s = elim (mask_text-IsMask s) [
  | inl hidden ↦ rw hidden mask_text_stars
  | inr (a, b, z, (shown, two, _, _)) ↦ rw shown (mask_text_wrapped a b z two)
]
  where
    stars : mask_text "***" ≡ "***"
    stars = unfold mask_text in refl

pub mask_text-truthy : (s : String) → truthy (mask_text s) ≡ true
mask_text-truthy s = elim (mask_text-IsMask s) [
  | inl hidden ↦ rw hidden refl
  | inr (a, b, z, (shown, _, _, _)) ↦
      let full : ends a b z ≢ "" = λ e.
        cons-ne-nil a (str_append (String.◌∷◌ b String.[]) (str_append "***" z))
          (sym (cons-append a (String.◌∷◌ b String.[]) (str_append "***" z)) ∙ e) in
      rw shown (ground (arith, eq_iff (ends a b z) "", full))
]
