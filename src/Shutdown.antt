-- ===== src/Shutdown.antt =====
-- src/infra/shutdown/shutdown.service.ts, with the readiness of
-- src/infra/health/presentation/health.controller.ts. The calls that the service makes are kept as a
-- list, the latest last; what they do and how long they take is the environment's. Times are
-- milliseconds from the signal.
mod Sequence
mod Tests
use backend_boilerplate.Base.{
  modify, Bool, Exec, List, Option, Result, String, [], error, false, http, if◌then◌else◌, ltb,
  nat_eq, none, not, ok, pure, reads, some, throw, true, try_catch, ℕ, ◌*◌, ◌++◌, ◌+◌, ◌>>=◌, ◌>>◌,
  ◌||◌, ◌∷◌,
}

-- A call on another component.
pub data Call : Type 0 where
  graceful_shutdown : (timeout_ms : ℕ) → Call
  stop_cron_job delete_interval delete_timeout : (name : String) → Call
  disconnect_cache : Call

-- `ConfigService.get` of the three settings, in milliseconds.
pub record Config : Type 0 where
  pub shutdown_timeout : Option ℕ
  pub queue_drain_timeout : Option ℕ
  pub websocket_close_timeout : Option ℕ

pub record ShutdownService : Type 0 where
  pub is_shutting_down : Bool
  pub shutdown_timeout : ℕ
  pub queue_drain_timeout : ℕ
  pub websocket_close_timeout : ℕ

-- A call's outcome, and when it settles; `none` is never.
pub record Settled : Type 0 where
  pub outcome : Result (Unit {0})
  pub after : Option ℕ

-- A job of the scheduler by name, and what stopping it does.
pub record Job : Type 0 where
  pub name : String
  pub stopped : Result (Unit {0})

pub record Scheduler : Type 0 where
  pub cron_jobs : List Job
  pub intervals : List Job
  pub timeouts : List Job

-- The optional parts: the gateway that registered itself, the scheduler and the cache manager.
pub record Environment : Type 0 where
  pub gateway : Option Settled
  pub scheduler : Option Scheduler
  pub cache_manager : Option Settled

-- `get(...) || d`
abbrev or_setting : Option ℕ → ℕ → ℕ
or_setting none d = d
or_setting (some n) d = if nat_eq n 0 then d else n

pub constructed : Config → ShutdownService
constructed c = record {
  is_shutting_down = false;
  shutdown_timeout = or_setting c.shutdown_timeout 30000;
  queue_drain_timeout = or_setting c.queue_drain_timeout 20000;
  websocket_close_timeout = or_setting c.websocket_close_timeout 5000;
}

abbrev call : Call → Exec (List Call) (Unit {0})
call c = modify (λ calls. calls ++ c ∷ [])

-- `try { … } catch (error) { warn }`
abbrev quietly : Exec (List Call) (Unit {0}) → Exec (List Call) (Unit {0})
quietly m = try_catch m (λ _. pure tt)

-- The race against the timer ends at the earlier of the two, and without an exception if the timer
-- is first; an exception is caught all the same.
pub race_time : Option ℕ → ℕ → ℕ
race_time none limit = limit
race_time (some t) limit = if ltb t limit then t else limit

pub close_web_sockets : ShutdownService → Option Settled → Exec (List Call) (Unit {0})
close_web_sockets s none = pure tt
close_web_sockets s (some gateway) =
    quietly (do call (graceful_shutdown s.websocket_close_timeout); reads (λ _. gateway.outcome))

-- `jobs.forEach(…)`, which an exception ends.
pub for_each : (String → Call) → List Job → Exec (List Call) (Unit {0})
for_each c [] = pure tt
for_each c (j ∷ js) = do call (c j.name); reads (λ _. j.stopped); for_each c js

pub stop_scheduled_tasks : Option Scheduler → Exec (List Call) (Unit {0})
unfolding for_each
stop_scheduled_tasks none = pure tt
stop_scheduled_tasks (some scheduler) = quietly (do
  for_each stop_cron_job scheduler.cron_jobs
  for_each delete_interval scheduler.intervals
  for_each delete_timeout scheduler.timeouts)

-- It leaves the queues to `QueueService.onModuleDestroy`.
pub drain_queues : Exec (List Call) (Unit {0})
drain_queues = pure tt

pub close_cache_connections : Option Settled → Exec (List Call) (Unit {0})
close_cache_connections none = pure tt
close_cache_connections (some cache) =
    quietly (do call disconnect_cache; reads (λ _. cache.outcome))

pub execute_shutdown_sequence : ShutdownService → Environment → Exec (List Call) (Unit {0})
unfolding close_web_sockets stop_scheduled_tasks drain_queues close_cache_connections
execute_shutdown_sequence s env = do
  close_web_sockets s env.gateway
  stop_scheduled_tasks env.scheduler
  drain_queues
  close_cache_connections env.cache_manager

-- When the sequence is through: the web sockets' race, then the cache's disconnection.
pub sequence_time : ShutdownService → Environment → Option ℕ
unfolding race_time
sequence_time s env =
    let sockets : ℕ = elim env.gateway [
      | none ↦ 0
      | some gateway ↦ race_time gateway.after s.websocket_close_timeout
    ] in
    elim env.cache_manager [
      | none ↦ some sockets
      | some cache ↦ elim cache.after [ none ↦ none | some t ↦ some (sockets + t) ]
    ]

pub record Exit : Type 0 where
  pub code : ℕ
  pub time : ℕ

-- `process.exit`: by the timer if the sequence is not through before it, and else after the
-- sequence, with 0 if that returned.
pub exit_of : ShutdownService → Option ℕ → Result (Unit {0}) → Exit
exit_of s none outcome = record { code = 1; time = s.shutdown_timeout }
exit_of s (some t) outcome =
    if ltb t s.shutdown_timeout
    then record { code = elim outcome [ ok _ ↦ 0 | throw e ↦ 1 ]; time = t }
    else record { code = 1; time = s.shutdown_timeout }

-- The handler of SIGTERM and SIGINT: the service after it, the calls, and the exit, if it is the
-- signal that leads to one.
pub shutdown : ShutdownService → Environment → ShutdownService × List Call × Option Exit
unfolding execute_shutdown_sequence sequence_time exit_of
shutdown s env = if s.is_shutting_down then (s, [], none) else (
  record s { is_shutting_down = true },
  (execute_shutdown_sequence s env []).1,
  some (exit_of s (sequence_time s env) (execute_shutdown_sequence s env []).0),
)

-- Several signals in turn, each with the environment that it finds.
pub signals : ShutdownService → List Environment → List (Option Exit)
signals s [] = []
signals s (env ∷ envs) = (shutdown s env).2 ∷ signals (shutdown s env).0 envs

-- health.controller.ts: `ready`, with the database's answer.
unfoldable pub ready : ShutdownService → Result (Unit {0}) → Result (Unit {0})
ready s database =
    if s.is_shutting_down then throw (http 503 "Server is shutting down") else database
