-- ===== src/Mask/Objects.antt =====
-- Masking objects: nothing is left unmasked under a sensitive key, at any depth.
use backend_boilerplate.Base.{ap, inr, inl, Bool-cases, refl, ◌⊎◌, if◌then◌else◌, String, ◌≡◌}
use backend_boilerplate.Json.{
  Json, null, bool, num, str, arr, obj, Items, nil, cons, Fields, end, field, truthy_json,
}
use backend_boilerplate.Mask.{
  mask_text, is_sensitive_field, mask_value, mask_object, mask_items, mask_fields,
}
use backend_boilerplate.Mask.Texts.{
  mask_text_stars, mask_text-truthy, IsMask, mask_text-IsMask, mask_text_idem,
}

module _ (lower : String → String) (to_text : Json → String) where
  -- A mask in place of a value.
  abbrev pub Hidden : Json → Json → Type 0
  Hidden u v = (t : String) × ((v ≡ str t) × ((t ≡ "***") ⊎ IsMask (to_text u) t))

  -- What masking has made of a value: the same shape and keys, and under a sensitive key a mask.
  mutual
    pub Masked : Json → Json → Type 0
    Masked (arr xs) (arr ys) = MaskedItems xs ys
    Masked (obj fs) (obj gs) = MaskedFields fs gs
    Masked (arr xs) v = ⊥
    Masked (obj fs) v = ⊥
    Masked u v = u ≡ v

    pub MaskedItems : Items → Items → Type 0
    MaskedItems nil nil = Unit {0}
    MaskedItems (cons u us) (cons v vs) = Masked u v × MaskedItems us vs
    MaskedItems _ _ = ⊥

    pub MaskedFields : Fields → Fields → Type 0
    MaskedFields end end = Unit {0}
    MaskedFields (field k u fs) (field j v gs) =
        (j ≡ k)
        × (if is_sensitive_field lower to_text k then Hidden u v else Masked u v)
        × MaskedFields fs gs
    MaskedFields _ _ = ⊥

  mask_value-IsMask :
      (u : Json)
      → (mask_value lower to_text u ≡ "***") ⊎ IsMask (to_text u) (mask_value lower to_text u)
  unfolding mask_value
  mask_value-IsMask u = elim (Bool-cases (truthy_json u)) [
    | inl given ↦ inr (rw given (mask_text-IsMask (to_text u)))
    | inr empty ↦ inl (rw empty refl)
  ]

  chosen :
      (k : String) (u : Json)
      → Masked u (mask_object lower to_text u)
      → (if is_sensitive_field lower to_text k
          then Hidden u (
              if is_sensitive_field lower to_text k
              then str (mask_value lower to_text u)
              else mask_object lower to_text u)
          else Masked u (
              if is_sensitive_field lower to_text k
              then str (mask_value lower to_text u)
              else mask_object lower to_text u))
  chosen k u h = elim (Bool-cases (is_sensitive_field lower to_text k)) [
    | inl secret ↦ rw secret (mask_value lower to_text u, (refl, mask_value-IsMask u))
    | inr open_to_all ↦ rw open_to_all h
  ]

  mutual
    unfolding mask_object Masked

    masked : (u : Json) → Masked u (mask_object lower to_text u)
    masked null = refl
    masked (bool b) = refl
    masked (num n) = refl
    masked (str s) = refl
    masked (arr xs) = masked_items xs
    masked (obj fs) = masked_fields fs

    masked_items : (us : Items) → MaskedItems us (mask_items lower to_text us)
    masked_items nil = tt
    masked_items (cons u us) = (masked u, masked_items us)

    masked_fields : (fs : Fields) → MaskedFields fs (mask_fields lower to_text fs)
    masked_fields end = tt
    masked_fields (field k u fs) = (refl, chosen k u (masked u), masked_fields fs)

  -- Masking keeps the shape and the keys of a value, and what is under no sensitive key; under a
  -- sensitive key, at any depth, it leaves a mask: three stars, alone or between the two first and
  -- the two last characters of the printed value.
  pub mask_object-Masked : (u : Json) → Masked u (mask_object lower to_text u)
  mask_object-Masked u = masked u

  -- A text prints as itself.
  module _ (prints : (s : String) → to_text (str s) ≡ s) where
    masks_once :
        (u : Json)
        → mask_value lower to_text (str (mask_value lower to_text u)) ≡ mask_value lower to_text u
    unfolding mask_value
    masks_once u = elim (Bool-cases (truthy_json u)) [
      | inl given ↦
          rw (given, mask_text-truthy (to_text u), prints (mask_text (to_text u)))
            (mask_text_idem (to_text u))
      | inr empty ↦ rw (empty, prints "***") mask_text_stars
    ]

    chosen_once :
        (k : String) (u : Json)
        → mask_object lower to_text (mask_object lower to_text u) ≡ mask_object lower to_text u
        → (if is_sensitive_field lower to_text k
            then str (
                mask_value lower to_text (
                  if is_sensitive_field lower to_text k
                  then str (mask_value lower to_text u)
                  else mask_object lower to_text u))
            else mask_object lower to_text (
                if is_sensitive_field lower to_text k
                then str (mask_value lower to_text u)
                else mask_object lower to_text u))
          ≡ (if is_sensitive_field lower to_text k
              then str (mask_value lower to_text u)
              else mask_object lower to_text u)
    chosen_once k u h = elim (Bool-cases (is_sensitive_field lower to_text k)) [
      | inl secret ↦ rw secret (ap str (masks_once u))
      | inr open_to_all ↦ rw open_to_all h
    ]

    mutual
      unfolding mask_object

      once :
          (u : Json)
          → mask_object lower to_text (mask_object lower to_text u) ≡ mask_object lower to_text u
      once null = refl
      once (bool b) = refl
      once (num n) = refl
      once (str s) = refl
      once (arr xs) = ap arr (once_items xs)
      once (obj fs) = ap obj (once_fields fs)

      once_items :
          (us : Items)
          → mask_items lower to_text (mask_items lower to_text us) ≡ mask_items lower to_text us
      once_items nil = refl
      once_items (cons u us) = λ i. cons (once u i) (once_items us i)

      once_fields :
          (fs : Fields)
          → mask_fields lower to_text (mask_fields lower to_text fs) ≡ mask_fields lower to_text fs
      once_fields end = refl
      once_fields (field k u fs) = λ i. field k (chosen_once k u (once u) i) (once_fields fs i)

    -- Masking a masked value changes nothing, where a text prints as itself.
    pub mask_object_idem :
        (u : Json)
        → mask_object lower to_text (mask_object lower to_text u) ≡ mask_object lower to_text u
    mask_object_idem u = once u
