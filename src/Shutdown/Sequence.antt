-- ===== src/Shutdown/Sequence.antt =====
-- How a shutdown runs and ends.
use backend_boilerplate.Base.{
  Result-cases, inl, inr, String, Bool, Bool-cases, map, ◌&&◌, Exception, if◌then◌else◌, All, List,
  Option, Result, [], ap, arith, false, http, none, ok, refl, some, sym, throw, true, ℕ, ◌++◌, ◌<◌,
  ◌↔◌, ◌∙◌, ◌∷◌, ◌≡◌, ◌≤◌,
}
use mathlib.Core.List.{append-nil, append_assoc}
use backend_boilerplate.Shutdown.{
  Job, for_each, stop_cron_job, delete_interval, delete_timeout, Call, graceful_shutdown,
  disconnect_cache, ShutdownService, Settled, Scheduler, Environment, Exit, close_web_sockets,
  stop_scheduled_tasks, close_cache_connections, drain_queues, execute_shutdown_sequence,
  sequence_time, exit_of, shutdown, signals, ready,
}

-- The call to the gateway, if there is one.
abbrev pub gateway_calls : ShutdownService → Option Settled → List Call
gateway_calls s none = []
gateway_calls s (some g) = graceful_shutdown s.websocket_close_timeout ∷ []

abbrev pub cache_calls : Option Settled → List Call
cache_calls none = []
cache_calls (some c) = disconnect_cache ∷ []

-- The jobs that are reached: those up to the first whose stop throws, that one included.
abbrev pub reached : List Job → List Job
reached [] = []
reached (j ∷ js) = elim j.stopped [ ok _ ↦ j ∷ reached js | throw _ ↦ j ∷ [] ]

abbrev pub all_stop : List Job → Bool
all_stop [] = true
all_stop (j ∷ js) = elim j.stopped [ ok _ ↦ all_stop js | throw _ ↦ false ]

-- The calls that stop the jobs of a list, in its order, where it is come to.
abbrev pub calls_for : Bool → (String → Call) → List Job → List Call
calls_for come_to c js = if come_to then map (λ (j : Job). c j.name) (reached js) else []

-- The calls to the scheduler: the cron jobs, then the intervals, then the timeouts, up to the first stop
-- that throws.
abbrev pub scheduler_calls : Option Scheduler → List Call
scheduler_calls none = []
scheduler_calls (some x) =
    calls_for true stop_cron_job x.cron_jobs
    ++ (calls_for (all_stop x.cron_jobs) delete_interval x.intervals
        ++ calls_for (all_stop x.cron_jobs && all_stop x.intervals) delete_timeout x.timeouts)

-- A loop over jobs makes the calls of those that are reached, and returns if all stop.
for_each-calls :
    (c : String → Call) (js : List Job) (calls : List Call)
    → ((for_each c js calls).1 ≡ calls ++ calls_for true c js)
      × (all_stop js ≡ true → (for_each c js calls).0 ≡ ok tt)
      × (all_stop js ≡ false → (x : Exception) × ((for_each c js calls).0 ≡ throw x))
unfolding for_each
for_each-calls c [] calls = (sym (append-nil calls), (λ e. refl), (λ e. absurd (ground arith)))
for_each-calls c (j ∷ js) calls = elim (Result-cases j.stopped) [
  | inl (_, fine) ↦
      let (made, ends, stops) = for_each-calls c js (calls ++ c j.name ∷ []) in
      (
        rw fine (made ∙ append_assoc calls (c j.name ∷ []) (calls_for true c js)),
        rw fine ends,
        rw fine stops,
      )
  | inr (x, bad) ↦ (rw bad refl, (λ e. absurd (ground (arith, bad, e))), (λ e. (x, rw bad refl)))
]

stop_scheduled_tasks-calls :
    (o : Option Scheduler) (calls : List Call)
    → stop_scheduled_tasks o calls ≡ (ok tt, calls ++ scheduler_calls o)
unfolding stop_scheduled_tasks
stop_scheduled_tasks-calls none calls = ap (λ l. (ok tt, l)) (sym (append-nil calls))
stop_scheduled_tasks-calls (some x) calls =
    let cron = for_each-calls stop_cron_job x.cron_jobs calls in
    let made : List Call = calls ++ calls_for true stop_cron_job x.cron_jobs in
    elim (Bool-cases (all_stop x.cron_jobs)) [
      | inr stuck ↦
          let (y, bad) = cron.2 stuck in
          (rw (stuck, bad, cron.0) (simp (append_assoc, append-nil) refl))
      | inl through ↦
          let ticks = for_each-calls delete_interval x.intervals made in
          elim (Bool-cases (all_stop x.intervals)) [
            | inr stuck ↦
                let (y, bad) = ticks.2 stuck in
                (rw (through, stuck, cron.1 through, cron.0, bad, ticks.0)
                  (simp (append_assoc, append-nil) refl))
            | inl on ↦
                let times =
                  for_each-calls delete_timeout x.timeouts
                    (made ++ calls_for true delete_interval x.intervals) in
                elim (Bool-cases (all_stop x.timeouts)) [
                  | inr stuck ↦
                      let (y, bad) = times.2 stuck in
                      (rw (through, on, cron.1 through, cron.0, ticks.1 on, ticks.0, bad, times.0)
                        (simp (append_assoc, append-nil) refl))
                  | inl done ↦
                      (rw
                        (
                          through,
                          on,
                          cron.1 through,
                          cron.0,
                          ticks.1 on,
                          ticks.0,
                          times.1 done,
                          times.0,
                        )
                        (simp (append_assoc, append-nil) refl))
                ]
          ]
    ]

close_web_sockets-calls :
    (s : ShutdownService) (o : Option Settled)
    → close_web_sockets s o [] ≡ (ok tt, gateway_calls s o)
unfolding close_web_sockets
close_web_sockets-calls s none = refl
close_web_sockets-calls s (some g) = ground arith

close_cache_connections-calls :
    (o : Option Settled) (calls : List Call)
    → close_cache_connections o calls ≡ (ok tt, calls ++ cache_calls o)
unfolding close_cache_connections
close_cache_connections-calls none calls = ap (λ l. (ok tt, l)) (sym (append-nil calls))
close_cache_connections-calls (some c) calls = ground arith

-- The sequence returns whatever its parts throw, and its calls are, in order: the gateway's; the stops of
-- the cron jobs, of the intervals and of the timeouts, up to the first that throws; and the
-- cache's disconnection, even if the others failed.
pub execute_shutdown_sequence-calls :
    (s : ShutdownService) (env : Environment)
    → execute_shutdown_sequence s env [] ≡ (
      ok tt,
      (gateway_calls s env.gateway ++ scheduler_calls env.scheduler)
          ++ cache_calls env.cache_manager,
    )
unfolding execute_shutdown_sequence drain_queues
execute_shutdown_sequence-calls s env =
    rw
      (
        close_web_sockets-calls s env.gateway,
        stop_scheduled_tasks-calls env.scheduler (gateway_calls s env.gateway),
      )
      (close_cache_connections-calls env.cache_manager
        (gateway_calls s env.gateway ++ scheduler_calls env.scheduler))

execute_shutdown_sequence-returns :
    (s : ShutdownService) (env : Environment) → (execute_shutdown_sequence s env []).0 ≡ ok tt
execute_shutdown_sequence-returns s env =
    ap (λ (p : Result (Unit {0}) × List Call). p.0) (execute_shutdown_sequence-calls s env)

exit_of-time :
    (s : ShutdownService) (t : Option ℕ) (r : Result (Unit {0}))
    → (exit_of s t r).time ≤ s.shutdown_timeout
unfolding exit_of
exit_of-time s none r = omega arith
exit_of-time s (some t) r = ground arith

exit_of-code :
    (s : ShutdownService) (o : Option ℕ) (r : Result (Unit {0}))
    → r ≡ ok tt
    → ((exit_of s o r).code ≡ 0) ↔ ((t : ℕ) × ((o ≡ some t) × (t < s.shutdown_timeout)))
unfolding exit_of
exit_of-code s none r e = ((λ h. absurd (omega arith)), (λ (t, h). absurd (ground arith)))
exit_of-code s (some t) r e = ((λ h. (t, (refl, ground arith))), (λ (u, h). ground arith))

-- The first signal ends the process no later than its timeout, with 0 exactly if the sequence was
-- through before it, and from then on the readiness check fails.
pub shutdown_exits :
    (s : ShutdownService) (env : Environment) (database : Result (Unit {0}))
    → s.is_shutting_down ≡ false
    → (x : Exit) × (((shutdown s env).2 ≡ some x)
        × (x.time ≤ s.shutdown_timeout)
        × ((x.code ≡ 0) ↔ ((t : ℕ) × ((sequence_time s env ≡ some t) × (t < s.shutdown_timeout))))
        × (ready (shutdown s env).0 database ≡ throw (http 503 "Server is shutting down")))
unfolding shutdown ready
shutdown_exits s env database first = (
  exit_of s (sequence_time s env) (execute_shutdown_sequence s env []).0,
  (
    ground arith,
    exit_of-time s (sequence_time s env) (execute_shutdown_sequence s env []).0,
    exit_of-code s (sequence_time s env) (execute_shutdown_sequence s env []).0
        (execute_shutdown_sequence-returns s env),
    ground arith,
  ),
)

shutting_down-silent :
    (s : ShutdownService) (envs : List Environment)
    → s.is_shutting_down ≡ true
    → All (λ x. x ≡ none) (signals s envs)
unfolding signals shutdown
shutting_down-silent s [] busy = tt
shutting_down-silent s (e ∷ envs) busy =
    (ground arith, shutting_down-silent (shutdown s e).0 envs (ground arith))

shutdown-busy :
    (s : ShutdownService) (env : Environment) → (shutdown s env).0.is_shutting_down ≡ true
unfolding shutdown
shutdown-busy s env = ground arith

-- After one signal, no run of further signals leads to an exit, in whatever environments.
pub signals_once :
    (s : ShutdownService) (env : Environment) (envs : List Environment)
    → All (λ x. x ≡ none) (signals (shutdown s env).0 envs)
signals_once s env envs = shutting_down-silent (shutdown s env).0 envs (shutdown-busy s env)
