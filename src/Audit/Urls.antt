-- ===== src/Audit/Urls.antt =====
-- Which entity a URL is taken to name.
use backend_boilerplate.Base.{
  true, arith, All, List, [], false, nat_eq, refl, ℕ, ◌++◌, ◌∷◌, ◌≡◌, ◌≢◌,
}
use backend_boilerplate.Audit.{same, codes, split_slash, extract_entity}

-- Under the global prefix `api`, which main.ts sets, every URL names the entity "api".
pub extract_entity-api : (rest : List ℕ) → extract_entity (codes "/api/" ++ rest) ≡ codes "api"
unfolding extract_entity
extract_entity-api rest = refl

split_slash-part :
    (part rest : List ℕ)
    → All (λ c. nat_eq c b'/' ≡ false) part
    → split_slash (part ++ (b'/' ∷ rest)) ≡ part ∷ split_slash rest
unfolding split_slash
split_slash-part [] rest h = refl
split_slash-part (c ∷ cs) rest (no_slash, h) = rw (no_slash, split_slash-part cs rest h) refl

same-eq : (as_ bs : List ℕ) → same as_ bs ≡ true → as_ ≡ bs
same-eq [] [] e = refl
same-eq [] (b ∷ bs) e = cc
same-eq (a ∷ as_) [] e = cc
same-eq (a ∷ as_) (b ∷ bs) e = ground (arith, same-eq as_ bs)

-- A URL that starts with the version, such as /v1/users/123, names the part after it, if that is
-- neither empty nor again the version.
pub extract_entity-versioned :
    (part rest : List ℕ)
    → All (λ c. nat_eq c b'/' ≡ false) part
    → part ≢ []
    → part ≢ codes "v1"
    → extract_entity (codes "/v1/" ++ (part ++ (b'/' ∷ rest))) ≡ part
unfolding extract_entity
extract_entity-versioned part rest no_slash some_part other =
    rw (split_slash-part part rest no_slash)
      (ground (arith, same-eq part [], same-eq part (codes "v1")))
