-- ===== src/Shutdown/Tests.antt =====
-- Shutdowns at concrete environments.
use backend_boilerplate.Base.{
  [], error, false, http, none, ok, refl, some, throw, ℕ, ◌++◌, ◌<◌, ◌↔◌, ◌∷◌, ◌≡◌, ◌≤◌,
}
use backend_boilerplate.Shutdown.{
  ShutdownService, Environment, Exit, constructed, shutdown, sequence_time,
  execute_shutdown_sequence, ready, graceful_shutdown, stop_cron_job, disconnect_cache,
}
use backend_boilerplate.Shutdown.Sequence.{
  execute_shutdown_sequence-calls, shutdown_exits, scheduler_calls, gateway_calls, cache_calls,
}

abbrev service : ShutdownService
service = record {
  is_shutting_down = false;
  shutdown_timeout = 30000;
  queue_drain_timeout = 20000;
  websocket_close_timeout = 5000;
}

-- A gateway that fails, one task that does not stop, and a cache that takes two seconds.
abbrev busy : Environment
busy = record {
  gateway = some (record { outcome = throw (error "closed"); after = some 100 });
  scheduler = some (record {
    cron_jobs = record { name = "cleanup"; stopped = throw (error "busy") } ∷ [];
    intervals = record { name = "tick"; stopped = ok tt } ∷ [];
    timeouts = [];
  });
  cache_manager = some (record { outcome = ok tt; after = some 2000 });
}

-- A cache that never disconnects.
abbrev stuck : Environment
stuck = record {
  gateway = none;
  scheduler = none;
  cache_manager = some (record { outcome = ok tt; after = none });
}

default_settings :
    constructed (record {
      shutdown_timeout = none;
      queue_drain_timeout = some 0;
      websocket_close_timeout = none;
    })
    ≡ service
unfolding constructed
default_settings = refl

busy_calls :
    (shutdown service busy).1
    ≡ graceful_shutdown 5000 ∷ stop_cron_job "cleanup" ∷ disconnect_cache ∷ []
unfolding shutdown
busy_calls = refl

busy_exit : (shutdown service busy).2 ≡ some (record { code = 0; time = 2100 })
unfolding shutdown
busy_exit = refl

stuck_exit : (shutdown service stuck).2 ≡ some (record { code = 1; time = 30000 })
unfolding shutdown
stuck_exit = refl

execute_shutdown_sequence-calls_example : execute_shutdown_sequence service busy [] ≡ (
  ok tt,
  (gateway_calls service busy.gateway ++ scheduler_calls busy.scheduler)
      ++ cache_calls busy.cache_manager,
)
execute_shutdown_sequence-calls_example = execute_shutdown_sequence-calls service busy

shutdown_exits_example :
    (x : Exit) × (((shutdown service busy).2 ≡ some x)
      × (x.time ≤ 30000)
      × ((x.code ≡ 0) ↔ ((t : ℕ) × ((sequence_time service busy ≡ some t) × (t < 30000))))
      × (ready (shutdown service busy).0 (ok tt) ≡ throw (http 503 "Server is shutting down")))
shutdown_exits_example = shutdown_exits service busy (ok tt) refl
