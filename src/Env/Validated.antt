-- ===== src/Env/Validated.antt =====
-- What a validated environment promises to the services.
use backend_boilerplate.Base.{
  none, ◌∙◌, ap, subst, sym, eq_iff, truthy, ◌==◌, true, Bool-cases, Option, nat_eq, List,
  Option-cases, String, [], arith, inl, inr, ok, refl, some, ◌∷◌, ◌≡◌,
}
use backend_boilerplate.Crypto.{NodeCrypto, utf16_length, constructed}
use backend_boilerplate.Env.{
  parsed, Zod, Schema, Value, exact_string, text, env_schema, Environment, parse_field, safe_parse,
  validate_env, setting,
}

module _ {Num : Type 0} (Z : Zod Num) where
  parsed_setting :
      (fields : List (String × Schema)) (env : Environment) (c : List (String × Value Num))
      (k : String) (s : Schema)
      → safe_parse Z fields env ≡ some c
      → setting fields k ≡ some s
      → (v : Value Num) × (setting c k ≡ some v) × (parse_field Z s (env k) ≡ some v)
  unfolding safe_parse setting
  parsed_setting [] env c k s e listed = absurd (ground arith)
  parsed_setting ((j, t) ∷ fields) env c k s e listed =
      elim (Option-cases (parse_field Z t (env j))) [
        | inl bad ↦ absurd (ground (arith, e, bad))
        | inr (v, good) ↦ elim (Option-cases (safe_parse Z fields env)) [
          | inl bad ↦ absurd (ground (arith, e, good, bad))
          | inr (rest, others) ↦
              let shape : c ≡ (j, v) ∷ rest = ground (arith, e, good, others) in
              elim (Bool-cases (j == k)) [
                | inl same ↦
                    let own : t ≡ s = ground (arith, listed, same) in
                    let key : j ≡ k = (eq_iff j k).0 same in
                    (
                      v,
                      rw (shape, same) refl,
                      subst (λ x. parse_field Z x (env k) ≡ some v) own
                          (subst (λ x. parse_field Z t (env x) ≡ some v) key good),
                    )
                | inr other ↦
                    let (w, held, parsed_as) =
                      parsed_setting fields env rest k s others (ground (arith, listed, other)) in
                    (w, rw (shape, other) held, parsed_as)
              ]
        ]
      ]

  accepted :
      (o : Option (List (String × Value Num))) (c : List (String × Value Num))
      → parsed Z o ≡ ok c
      → o ≡ some c
  accepted none c e = absurd (ground arith)
  accepted (some d) c e = ground arith

  -- If the validation passes, every key of the schema is set, to what its own check accepts of the
  -- environment.
  pub validate_env-setting :
      (env : Environment) (c : List (String × Value Num)) (k : String) (s : Schema)
      → validate_env Z env ≡ ok c
      → setting env_schema k ≡ some s
      → (v : Value Num) × (setting c k ≡ some v) × (parse_field Z s (env k) ≡ some v)
  unfolding validate_env
  validate_env-setting env c k s e listed =
      parsed_setting env_schema env c k s (accepted (safe_parse Z env_schema env) c e) listed

  starts :
      {Buffer : Type 0} (N : NodeCrypto Buffer) (key : String)
      → nat_eq (utf16_length key) 32 ≡ true
      → constructed N (some key) ≡ ok (N.from_utf8 key)
  unfolding constructed utf16_length
  starts N key units = elim (Bool-cases (truthy key)) [
    | inl given ↦ rw (given, units) refl
    | inr empty ↦
        let nothing : key ≡ "" = ground (arith, eq_iff key "") in
        absurd (ground (arith, units, ap utf16_length nothing))
  ]

  -- The crypto service starts with the key of every environment that passes the validation.
  pub constructed-validate_env :
      {Buffer : Type 0} (N : NodeCrypto Buffer) (env : Environment) (c : List (String × Value Num))
      → validate_env Z env ≡ ok c
      → (key : String) × (setting c "ENCRYPTION_KEY" ≡ some (text key))
        × (constructed N (some key) ≡ ok (N.from_utf8 key))
  unfolding setting parse_field
  constructed-validate_env N env c e =
      let (v, held, parsed) =
        validate_env-setting env c "ENCRYPTION_KEY" (exact_string 32) e refl in
      elim (Option-cases (env "ENCRYPTION_KEY")) [
        | inl unset ↦ absurd (ground (arith, parsed, unset))
        | inr (key, set_to) ↦ elim (Bool-cases (Z.exact_length 32 key)) [
          | inr bad ↦ absurd (ground (arith, parsed, set_to, bad))
          | inl good ↦
              let shape : v ≡ text key = ground (arith, parsed, set_to, good) in
              let units : nat_eq (utf16_length key) 32 ≡ true =
                sym (Z.exact_length_lem 32 key) ∙ good in
              (key, held ∙ ap some shape, starts N key units)
        ]
      ]
