-- ===== src/Health/Tests.antt =====
-- A server with everything up, and one that is shutting down.
use backend_boilerplate.Base.{All, Bool, List, [], false, http, ok, refl, throw, true, ◌∷◌, ◌≡◌}
use backend_boilerplate.Shutdown.{ShutdownService}
use backend_boilerplate.Health.{Terminus, Indicator, readiness, check, live}

all_true : (is : List Indicator) → All {A = Indicator} (λ i. true ≡ true) is
all_true [] = tt
all_true (i ∷ is) = (refl, all_true is)

abbrev all_up : Terminus
all_up = record {
  up = λ i. true;
  check = λ is. ok tt;
  check_lem = λ is. ((λ e. all_true is), (λ h. refl));
}

abbrev service : Bool → ShutdownService
service is_shutting_down = record {
  is_shutting_down = is_shutting_down;
  shutdown_timeout = 30000;
  queue_drain_timeout = 20000;
  websocket_close_timeout = 5000;
}

run : Unit {0}
unfolding readiness check live
run = tt

health_tests :
    (readiness all_up (service false) ≡ ok tt)
    × (readiness all_up (service true) ≡ throw (http 503 "Server is shutting down"))
    × (check all_up "/" ≡ ok tt)
    × ((live 5).status ≡ "ok")
unfolding run
health_tests = (refl, refl, refl, refl)
