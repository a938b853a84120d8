-- ===== src/Metrics.antt =====
-- src/core/interceptors/metrics.interceptor.ts. prom-client's counter and histogram are an interface
-- over the state of the server.
use backend_boilerplate.Base.{
  Bool, Exception, Exec, Result, String, error, http, if◌then◌else◌, nat_eq, ok, refl, suc, throw,
  ℕ, ◌&&◌, ◌==◌, ◌∙◌, ◌≡◌,
}

-- The labels `method`, `route` and `status`.
pub record Labels : Type 0 where
  pub method : String
  pub route : String
  pub status : ℕ

-- `(Date.now() - startTime) / 1000`, by its two times in milliseconds.
pub record Duration : Type 0 where
  pub started : ℕ
  pub ended : ℕ

abbrev pub same_labels : Labels → Labels → Bool
same_labels l m = l.method == m.method && (l.route == m.route && nat_eq l.status m.status)

-- `count` is the value of `http_requests_total` at some labels, and `observations` how many values
-- the histogram has there; only the laws name them.
pub record Registry (S : Type 0) : Type 0 where
  pub count : S → Labels → ℕ
  pub observations : S → Labels → ℕ
  pub inc : Labels → S → S
  pub observe : Labels → Duration → S → S
  pub now : S → ℕ
  pub inc_count :
      (l m : Labels) (s : S)
      → count (inc l s) m ≡ (if same_labels l m then suc (count s m) else count s m)
  pub inc_observations : (l m : Labels) (s : S) → observations (inc l s) m ≡ observations s m
  pub observe_count : (l m : Labels) (d : Duration) (s : S) → count (observe l d s) m ≡ count s m
  pub observe_observations :
      (l m : Labels) (d : Duration) (s : S)
      → observations (observe l d s) m
        ≡ (if same_labels l m then suc (observations s m) else observations s m)

-- `error.status || 500`
unfoldable pub status_of : Exception → ℕ
status_of (http status message) = if nat_eq status 0 then 500 else status
status_of (error message) = 500

module _ {S : Type 0} (R : Registry S) where
  abbrev pub labels_of :
      (method route : String) (status_code : ℕ) → {A : Type 0} → Result A → Labels
  labels_of method route status_code (ok a) = record {
    method = method;
    route = route;
    status = status_code;
  }
  labels_of method route status_code (throw e) = record {
    method = method;
    route = route;
    status = status_of e;
  }

  abbrev recorded : Labels → Duration → S → S
  recorded l d s = R.observe l d (R.inc l s)

  -- `status_code` is the response's, which the route sets before.
  unfoldable pub intercept :
      {A : Type 0} → (method route : String) → (status_code : ℕ) → Exec S A → Exec S A
  unfolding status_of
  intercept method route status_code handler s = (
    (handler s).0,
    recorded (labels_of method route status_code (handler s).0)
        (record { started = R.now s; ended = R.now (handler s).1 }) (handler s).1,
  )

  -- What a request adds to the counter and to the histogram.
  abbrev pub Counted : {A : Type 0} → (method route : String) → ℕ → Exec S A → S → Type 0
  Counted method route status_code handler s =
      ((intercept method route status_code handler s).0 ≡ (handler s).0)
      × ((m : Labels)
          → (R.count (intercept method route status_code handler s).1 m ≡ (
              if same_labels (labels_of method route status_code (handler s).0) m
              then suc (R.count (handler s).1 m)
              else R.count (handler s).1 m))
            × (R.observations (intercept method route status_code handler s).1 m ≡ (
                if same_labels (labels_of method route status_code (handler s).0) m
                then suc (R.observations (handler s).1 m)
                else R.observations (handler s).1 m)))

  -- A handler's answer or exception is passed on, and counted once beyond what the handler itself
  -- counts, in the counter and in the histogram: under the response's status, or under the exception's.
  pub intercept-Counted :
      {A : Type 0} (method route : String) (status_code : ℕ) (handler : Exec S A) (s : S)
      → Counted method route status_code handler s
  unfolding intercept
  intercept-Counted method route status_code handler s = (
    refl,
    (λ m.
        let l : Labels = labels_of method route status_code (handler s).0 in
        let d : Duration = record { started = R.now s; ended = R.now (handler s).1 } in
        (
          R.observe_count l m d (R.inc l (handler s).1) ∙ R.inc_count l m (handler s).1,
          rw
              (
                R.observe_observations l m d (R.inc l (handler s).1),
                R.inc_observations l m (handler s).1,
              )
              refl,
        )),
  )
