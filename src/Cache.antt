-- ===== src/Cache.antt =====
-- src/infra/cache/cache.service.ts over cache-manager, of which `clear` and `disconnect` are further
-- calls. A missing time to live is the manager's own.
mod Tests
use backend_boilerplate.Base.{
  ==-refl, arith, Ensures, Exec, Option, Result, String, any, if◌then◌else◌, none, ok, pure, reads,
  some, try_catch, writes, ℕ, ◌*◌, ◌==◌, ◌≡◌, ◌⊎◌,
}
use backend_boilerplate.Store as Store

pub record CacheManager (S V : Type 0) : Type 0 where
  pub cache : Store.Cache S V
  pub default_ttl : ℕ
  pub clear : S → Result S
  pub disconnect : S → Result S
  pub clear_held : (s : S) (k : String) → Ensures (λ t. (cache.held) t k ≡ none) (clear s)

module _ {S V : Type 0} (M : CacheManager S V) where
  unfoldable pub get : String → Exec S (Option V)
  get key = reads (λ s. (M.cache).get s key)

  abbrev ttl_of : Option ℕ → ℕ
  ttl_of none = M.default_ttl
  ttl_of (some ttl) = ttl

  unfoldable pub set : String → V → Option ℕ → Exec S (Unit {0})
  set key value ttl = writes (λ s. (M.cache).set s key value (ttl_of ttl))

  unfoldable pub del : String → Exec S (Unit {0})
  del key = writes (λ s. (M.cache).del s key)

  unfoldable pub reset : Exec S (Unit {0})
  reset = writes M.clear

  -- A failure to close is logged.
  unfoldable pub on_module_destroy : Exec S (Unit {0})
  on_module_destroy = try_catch (writes M.disconnect) (λ _. pure tt)

  abbrev pub MissOr : Option V → Option V → Type 0
  MissOr expected o = (o ≡ none) ⊎ (o ≡ expected)

  -- After a value was set, a lookup that returns gives it under its own key, or nothing; under
  -- another key it gives what was held before, or nothing. After a deletion a lookup of the
  -- key gives nothing, and after a reset one of any key.
  pub get-set :
      (key other : String) (v : V) (ttl : Option ℕ) (s : S)
      → ((s' : S)
          → set key v ttl s ≡ (ok tt, s')
          → Ensures
              (MissOr (if key == other then some v else (M.cache).held s other))
              (get other s').0)
        × ((s' : S) → del key s ≡ (ok tt, s') → Ensures (λ o. o ≡ none) (get key s').0)
        × ((s' : S) → reset s ≡ (ok tt, s') → Ensures (λ o. o ≡ none) (get other s').0)
  unfolding get set del reset
  get-set key other v ttl s = (
    (λ s' e.
        ground (arith, (M.cache).get_lem s' other, (M.cache).set_held s key v (ttl_of ttl) other)),
    (λ s' e. ground (arith, (M.cache).get_lem s' key, (M.cache).del_held s key key, ==-refl key)),
    (λ s' e. ground (arith, (M.cache).get_lem s' other, M.clear_held s other)),
  )
