-- ===== src/Queue.antt =====
-- src/infra/queue: queue.service.ts and processors/email.processor.ts, and the handlers of
-- src/infra/events/handlers, which put jobs in the queues. Bull itself is a parameter.
mod Delivery
mod Tests
use Prim.Native.String.{◌++◌ as str_append}
use backend_boilerplate.Base.{
  modify, Ensures, Exec, List, Option, Result, String, [], error, if◌then◌else◌, none, not, ok,
  pure, raise, reads, some, suc, throw, truthy, try_catch, writes, ℕ, ◌*◌, ◌++◌, ◌==◌, ◌>>=◌, ◌>>◌,
  ◌||◌, ◌∷◌, ◌≡◌,
}
use backend_boilerplate.Events.{
  Event, user_login, user_logout, user_created, user_updated, user_deleted, user_password_changed,
}

pub record EmailJobData : Type 0 where
  pub to : String
  pub subject : String
  pub body : String
  pub template : Option String

pub record NotificationJobData : Type 0 where
  pub user_id : String
  pub kind : String
  pub title : String
  pub message : String

pub record JobOptions : Type 0 where
  pub delay : Option ℕ
  pub priority : Option ℕ

pub record QueueStats : Type 0 where
  pub queue_name : String
  pub waiting : ℕ
  pub active : ℕ
  pub completed : ℕ
  pub failed : ℕ
  pub delayed : ℕ

-- A Bull queue: the jobs that were added to it, and its counts. An `add` that throws adds nothing.
pub record BullQueue (S D : Type 0) : Type 0 where
  pub jobs : S → List D
  pub add : S → D → JobOptions → Result S
  pub counts : S → Result QueueStats
  pub get_active_count : S → Result ℕ
  pub close : S → Result (Unit {0})
  pub add_jobs :
      (s : S) (d : D) (o : JobOptions) → Ensures (λ t. jobs t ≡ jobs s ++ d ∷ []) (add s d o)

pub record Queues (Em No : Type 0) : Type 0 where
  pub emails : Em
  pub notifications : No
  -- the queues that were told to close, by name
  pub closed : List String

abbrev pub no_options : JobOptions
no_options = record { delay = none; priority = none }

-- `QUEUE_NAMES`
abbrev pub email_queue : String
email_queue = "email"

abbrev pub notification_queue : String
notification_queue = "notification"

abbrev pub welcome : String → String → EmailJobData
welcome user_id email = record {
  to = email;
  subject = "Welcome to Our Platform!";
  body = str_append "Hello! Your account has been created successfully. Your user ID is: " user_id;
  template = some "welcome";
}

abbrev pub password_changed : String → EmailJobData
password_changed email = record {
  to = email;
  subject = "Password Changed";
  body =
      "Your password has been changed successfully. If you did not make this change, please contact support immediately.";
  template = some "password-changed";
}

abbrev pub account_deleted : String → EmailJobData
account_deleted email = record {
  to = email;
  subject = "Account Deleted";
  body = "Your account has been deleted. We are sorry to see you go.";
  template = some "account-deleted";
}

-- `event.ipAddress || 'unknown IP'`
abbrev address_or : Option String → String
address_or none = "unknown IP"
address_or (some ip) = if truthy ip then ip else "unknown IP"

abbrev pub new_login : String → Option String → NotificationJobData
new_login user_id ip_address = record {
  user_id = user_id;
  kind = "security";
  title = "New Login";
  message = str_append "New login detected from " (address_or ip_address);
}

module _ {Em No : Type 0} (E : BullQueue Em EmailJobData)
    (N : BullQueue No NotificationJobData) where
  abbrev with_emails : Queues Em No → Result Em → Result (Queues Em No)
  with_emails q (ok emails) = ok (record q { emails = emails })
  with_emails q (throw e) = throw e

  abbrev with_notifications : Queues Em No → Result No → Result (Queues Em No)
  with_notifications q (ok notifications) = ok (record q { notifications = notifications })
  with_notifications q (throw e) = throw e

  -- queue.service.ts: the `catch` logs and throws again.
  abbrev pub send_email : EmailJobData → JobOptions → Exec (Queues Em No) (Unit {0})
  send_email job options = writes (λ q. with_emails q (E.add q.emails job options))

  abbrev pub send_notification : NotificationJobData → JobOptions → Exec (Queues Em No) (Unit {0})
  send_notification job options =
      writes (λ q. with_notifications q (N.add q.notifications job options))

  -- Every name but that of the emails is taken for the notifications.
  pub get_queue_stats : String → Exec (Queues Em No) QueueStats
  get_queue_stats queue_name =
      if queue_name == email_queue
      then reads (λ q. E.counts q.emails)
      else reads (λ q. N.counts q.notifications)

  -- `catch (error) { log }`
  abbrev quietly : Exec (Queues Em No) (Unit {0}) → Exec (Queues Em No) (Unit {0})
  quietly m = try_catch m (λ _. pure tt)

  abbrev told : String → Exec (Queues Em No) (Unit {0})
  told name = modify (λ q. record q { closed = q.closed ++ name ∷ [] })

  close_emails : Exec (Queues Em No) (Unit {0})
  close_emails =
      quietly (do
        reads (λ q. E.get_active_count q.emails)
        told email_queue
        reads (λ q. E.close q.emails))

  close_notifications : Exec (Queues Em No) (Unit {0})
  close_notifications = quietly (do
    reads (λ q. N.get_active_count q.notifications)
    told notification_queue
    reads (λ q. N.close q.notifications))

  pub on_module_destroy : Exec (Queues Em No) (Unit {0})
  unfolding close_emails close_notifications
  on_module_destroy = do close_emails; close_notifications

  -- user-email.handler.ts and user-notification.handler.ts
  handle_user_created : String → String → Exec (Queues Em No) (Unit {0})
  handle_user_created user_id email = quietly (send_email (welcome user_id email) no_options)

  handle_password_changed : String → Exec (Queues Em No) (Unit {0})
  handle_password_changed email = quietly (send_email (password_changed email) no_options)

  handle_user_deleted : String → Exec (Queues Em No) (Unit {0})
  handle_user_deleted email = quietly (send_email (account_deleted email) no_options)

  handle_user_login : String → Option String → Exec (Queues Em No) (Unit {0})
  handle_user_login user_id ip_address =
      quietly (send_notification (new_login user_id ip_address) no_options)

  handle_user_logout : Exec (Queues Em No) (Unit {0})
  handle_user_logout = pure tt

  -- The handler that an event's name is bound to. The login event carries no address.
  pub dispatch : Event → Exec (Queues Em No) (Unit {0})
  unfolding handle_user_created handle_password_changed handle_user_deleted handle_user_login
      handle_user_logout
  dispatch (user_created user_id email role) = handle_user_created user_id email
  dispatch (user_password_changed user_id email) = handle_password_changed email
  dispatch (user_deleted user_id email) = handle_user_deleted email
  dispatch (user_login user_id email) = handle_user_login user_id none
  dispatch (user_logout user_id email) = handle_user_logout
  dispatch (user_updated user_id email changes) = pure tt

  pub dispatch_all : List Event → Exec (Queues Em No) (Unit {0})
  dispatch_all [] = pure tt
  dispatch_all (e ∷ es) = do dispatch e; dispatch_all es

-- email.processor.ts: the two counters, and a job whose sending may throw.
pub record Counters : Type 0 where
  pub completed : ℕ
  pub failed : ℕ

pub handle_send_email : Result (Unit {0}) → Exec Counters (Unit {0})
handle_send_email (ok done) = do modify (λ c. record c { completed = suc c.completed }); pure tt
handle_send_email (throw e) = do modify (λ c. record c { failed = suc c.failed }); raise e
