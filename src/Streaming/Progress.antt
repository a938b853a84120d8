-- ===== src/Streaming/Progress.antt =====
-- The messages of a progress stream.
use backend_boilerplate.Base.{
  ◌==◌, refl, inr, ap, inl, ◌∙◌, leb, Bool-cases, arith, List, Option, String, [], none, some, suc,
  zero, ℕ, ◌*◌, ◌+◌, ◌<◌, ◌↔◌, ◌∷◌, ◌≡◌, ◌≤◌,
}
use backend_boilerplate.Streaming.{ProgressEvent, tick, ticks}

-- The message of a place, from 0.
abbrev pub message_at : List ProgressEvent → ℕ → Option ProgressEvent
message_at [] n = none
message_at (m ∷ ms) zero = some m
message_at (m ∷ ms) (suc n) = message_at ms n

ticked :
    (n k : ℕ) (task_id : String) (progress : ℕ)
    → k < n
    → message_at (ticks n task_id progress) k ≡ some (tick task_id (progress + k * 10)).0
unfolding ticks tick
ticked zero k task_id progress h = absurd (omega arith)
ticked (suc n) zero task_id progress h =
    let e : progress + 0 * 10 ≡ progress = omega arith in rw e refl
ticked (suc n) (suc k) task_id progress h =
    let e : progress + 10 + k * 10 ≡ progress + suc k * 10 = omega arith in
    ticked n k task_id (progress + 10) (omega arith) ∙ ap (λ p. some (tick task_id p).0) e

capped : (progress : ℕ) → ((tick "" progress).0).progress ≤ 100
unfolding tick
capped progress = elim (Bool-cases (leb (progress + 10) 100)) [
  | inl below ↦ rw below (ground arith)
  | inr above ↦ rw above (omega arith)
]

completed : (k : ℕ) → (((tick "" (0 + k * 10)).0).kind ≡ "complete") ↔ (9 ≤ k)
unfolding tick
completed k = elim (Bool-cases (leb 100 (0 + k * 10 + 10))) [
  | inl late ↦ rw late (λ e. ground arith, λ h. refl)
  | inr early ↦
      rw early (λ e. absurd (cc (ap (λ t. t == "complete") e)), λ h. absurd (ground arith))
]

-- Of the messages of a stream, that of place `k` says ten per cent for each tick until then, a
-- hundred at most, and is the completion's exactly from the tenth on; the stream does not end with it.
pub ticks-progress :
    (n k : ℕ) (task_id : String)
    → k < n
    → (m : ProgressEvent) × (message_at (ticks n task_id 0) k ≡ some m)
      × (m.progress ≤ 100)
      × ((m.kind ≡ "complete") ↔ (9 ≤ k))
      × (m.task_id ≡ task_id)
unfolding tick
ticks-progress n k task_id h =
    ((tick task_id (0 + k * 10)).0, ticked n k task_id 0 h, capped (0 + k * 10), completed k, refl)
