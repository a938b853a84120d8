-- ===== src/Queue/Tests.antt =====
-- The queues as lists of jobs.
use backend_boilerplate.Base.{List, [], error, none, ok, refl, throw, ◌++◌, ◌∷◌, ◌≡◌}
use backend_boilerplate.Users.{user}
use backend_boilerplate.Events.{Event, user_login, user_logout, user_created, user_deleted}
use backend_boilerplate.Queue.{
  EmailJobData, NotificationJobData, BullQueue, Queues, welcome, account_deleted, new_login,
  dispatch, dispatch_all, on_module_destroy, email_queue, notification_queue, handle_send_email,
}
use backend_boilerplate.Queue.Delivery.{dispatch_all-jobs, flat_map, emails_for, notifications_for}

abbrev in_memory : {D : Type 0} → BullQueue (List D) D
in_memory = record {
  jobs = λ s. s;
  add = λ s d o. ok (s ++ d ∷ []);
  counts = λ s. throw (error "Connection is closed.");
  get_active_count = λ s. ok 0;
  close = λ s. ok tt;
  add_jobs = λ s d o. refl;
}

abbrev quiet : Queues (List EmailJobData) (List NotificationJobData)
quiet = record { emails = []; notifications = []; closed = [] }

abbrev a_day : List Event
a_day =
    user_created "u1" "a@x.org" user
    ∷ user_login "u1" "a@x.org"
    ∷ user_logout "u1" "a@x.org"
    ∷ user_deleted "u1" "a@x.org"
    ∷ []

run : Unit {0}
unfolding dispatch dispatch_all on_module_destroy handle_send_email
run = tt

queue_tests :
    (dispatch_all in_memory in_memory a_day quiet ≡ (
      ok tt,
      record {
        emails = welcome "u1" "a@x.org" ∷ account_deleted "a@x.org" ∷ [];
        notifications = new_login "u1" none ∷ [];
        closed = [];
      },
    ))
    × (on_module_destroy in_memory in_memory quiet
        ≡ (ok tt, record quiet { closed = email_queue ∷ notification_queue ∷ [] }))
    × ((new_login "u1" none).message ≡ "New login detected from unknown IP")
    × (handle_send_email (throw (error "smtp")) (record { completed = 0; failed = 1 })
        ≡ (throw (error "smtp"), record { completed = 0; failed = 2 }))
unfolding run
queue_tests = (refl, refl, refl, refl)

dispatch_all-jobs_example :
    (((dispatch_all in_memory in_memory a_day quiet).1).emails ≡ [] ++ flat_map emails_for a_day)
    × (((dispatch_all in_memory in_memory a_day quiet).1).notifications
        ≡ [] ++ flat_map notifications_for a_day)
dispatch_all-jobs_example =
    dispatch_all-jobs in_memory in_memory (λ s d. (s ++ d ∷ [], refl)) (λ s d. (s ++ d ∷ [], refl))
      a_day quiet
