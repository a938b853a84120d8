-- ===== src/Queue/Delivery.antt =====
-- Which jobs the events lead to.
use backend_boilerplate.Base.{List, [], ap, arith, none, ok, refl, sym, ℕ, ◌++◌, ◌∙◌, ◌∷◌, ◌≡◌}
use mathlib.Core.List.{append_assoc, append-nil}
use backend_boilerplate.Events.{
  Event, user_login, user_logout, user_created, user_updated, user_deleted, user_password_changed,
}
use backend_boilerplate.User.{CreateUserDto}
use backend_boilerplate.User as U
use backend_boilerplate.User.Account.{create-Created}
use backend_boilerplate.Users.{User}
use backend_boilerplate.Queue.{
  EmailJobData, NotificationJobData, BullQueue, Queues, welcome, password_changed, account_deleted,
  new_login, dispatch, dispatch_all, on_module_destroy, email_queue, notification_queue, no_options,
}

-- The emails and the notifications that an event asks for.
abbrev pub emails_for : Event → List EmailJobData
emails_for (user_created user_id email role) = welcome user_id email ∷ []
emails_for (user_password_changed user_id email) = password_changed email ∷ []
emails_for (user_deleted user_id email) = account_deleted email ∷ []
emails_for (user_login user_id email) = []
emails_for (user_logout user_id email) = []
emails_for (user_updated user_id email changes) = []

abbrev pub notifications_for : Event → List NotificationJobData
notifications_for (user_login user_id email) = new_login user_id none ∷ []
notifications_for (user_created user_id email role) = []
notifications_for (user_password_changed user_id email) = []
notifications_for (user_deleted user_id email) = []
notifications_for (user_logout user_id email) = []
notifications_for (user_updated user_id email changes) = []

abbrev pub flat_map : {A : Type 0} → (Event → List A) → List Event → List A
flat_map f [] = []
flat_map f (e ∷ es) = f e ++ flat_map f es

module _ {Em No : Type 0} (E : BullQueue Em EmailJobData)
    (N : BullQueue No NotificationJobData) where
  dispatch-returns : (e : Event) (q : Queues Em No) → (dispatch E N e q).0 ≡ ok tt
  unfolding dispatch
  dispatch-returns (user_created user_id email role) q = ground arith
  dispatch-returns (user_password_changed user_id email) q = ground arith
  dispatch-returns (user_deleted user_id email) q = ground arith
  dispatch-returns (user_login user_id email) q = ground arith
  dispatch-returns (user_logout user_id email) q = ground arith
  dispatch-returns (user_updated user_id email changes) q = ground arith

  -- The handlers stop no event from being handled: whatever the queues throw, they return.
  pub dispatch_all-returns :
      (es : List Event) (q : Queues Em No) → (dispatch_all E N es q).0 ≡ ok tt
  unfolding dispatch_all
  dispatch_all-returns [] q = refl
  dispatch_all-returns (e ∷ es) q =
      ground (arith, dispatch-returns e q, dispatch_all-returns es (dispatch E N e q).1)

  -- Queues that take every job.
  abbrev pub Reliable : {S D : Type 0} → BullQueue S D → Type 0
  Reliable {S} {D} Q = (s : S) (d : D) → (t : S) × (Q.add s d no_options ≡ ok t)

  module _ (emails_up : Reliable E) (notifications_up : Reliable N) where
    dispatch-jobs :
        (e : Event) (q : Queues Em No)
        → (E.jobs ((dispatch E N e q).1).emails ≡ E.jobs q.emails ++ emails_for e)
          × (N.jobs ((dispatch E N e q).1).notifications
              ≡ N.jobs q.notifications ++ notifications_for e)
    unfolding dispatch
    dispatch-jobs (user_created user_id email role) q =
        let (t, added) = emails_up q.emails (welcome user_id email) in
        ground (
          arith,
          E.add_jobs q.emails (welcome user_id email) no_options,
          append-nil (N.jobs q.notifications),
        )
    dispatch-jobs (user_password_changed user_id email) q =
        let (t, added) = emails_up q.emails (password_changed email) in
        ground (
          arith,
          E.add_jobs q.emails (password_changed email) no_options,
          append-nil (N.jobs q.notifications),
        )
    dispatch-jobs (user_deleted user_id email) q =
        let (t, added) = emails_up q.emails (account_deleted email) in
        ground (
          arith,
          E.add_jobs q.emails (account_deleted email) no_options,
          append-nil (N.jobs q.notifications),
        )
    dispatch-jobs (user_login user_id email) q =
        let (t, added) = notifications_up q.notifications (new_login user_id none) in
        ground (
          arith,
          N.add_jobs q.notifications (new_login user_id none) no_options,
          append-nil (E.jobs q.emails),
        )
    dispatch-jobs (user_logout user_id email) q =
        (sym (append-nil (E.jobs q.emails)), sym (append-nil (N.jobs q.notifications)))
    dispatch-jobs (user_updated user_id email changes) q =
        (sym (append-nil (E.jobs q.emails)), sym (append-nil (N.jobs q.notifications)))

    -- While the queues take every job, any events in turn add exactly the emails and the
    -- notifications that each asks for, in the events' order.
    pub dispatch_all-jobs :
        (es : List Event) (q : Queues Em No)
        → (E.jobs ((dispatch_all E N es q).1).emails ≡ E.jobs q.emails ++ flat_map emails_for es)
          × (N.jobs ((dispatch_all E N es q).1).notifications
              ≡ N.jobs q.notifications ++ flat_map notifications_for es)
    unfolding dispatch_all
    dispatch_all-jobs [] q =
        (sym (append-nil (E.jobs q.emails)), sym (append-nil (N.jobs q.notifications)))
    dispatch_all-jobs (e ∷ es) q =
        let next : Queues Em No = (dispatch E N e q).1 in
        let (mails, notes) = dispatch_all-jobs es next in
        let (mail, note) = dispatch-jobs e q in
        rw (dispatch-returns e q) (
          mails
              ∙ ap (λ l. l ++ flat_map emails_for es) mail
              ∙ append_assoc (E.jobs q.emails) (emails_for e) (flat_map emails_for es),
          notes
              ∙ ap (λ l. l ++ flat_map notifications_for es) note
              ∙ append_assoc (N.jobs q.notifications) (notifications_for e)
                  (flat_map notifications_for es),
        )

    -- An account that was created gets one email, the welcome to its own address, from the events
    -- of a server that had emitted none before, while the queues take every job.
    pub create-welcome :
        {Us : Type 0} (S : U.Services Us) (w w' : U.World Us) (dto : CreateUserDto) (r : User)
        (q : Queues Em No)
        → U.create S dto w ≡ (ok r, w')
        → w.events ≡ []
        → E.jobs ((dispatch_all E N w'.events q).1).emails
          ≡ E.jobs q.emails ++ welcome r.id dto.email ∷ []
    create-welcome S w w' dto r q e silent =
        let (u, x) = create-Created S w w' dto r e in
        let events : w'.events ≡ user_created u.id u.email u.role ∷ [] = ground arith in
        let same_id : u.id ≡ r.id = ground arith in
        let address : u.email ≡ dto.email = ground arith in
        rw events (
          (dispatch_all-jobs (user_created u.id u.email u.role ∷ []) q).0
          ∙ ap (λ j. E.jobs q.emails ++ j ∷ []) (λ i. welcome (same_id i) (address i)))

  -- Both queues are told to close, unless their active jobs cannot be counted, and nothing is thrown.
  pub on_module_destroy_lem :
      (q : Queues Em No) (a b : ℕ)
      → E.get_active_count q.emails ≡ ok a
      → N.get_active_count q.notifications ≡ ok b
      → on_module_destroy E N q
        ≡ (ok tt, record q { closed = (q.closed ++ email_queue ∷ []) ++ notification_queue ∷ [] })
  unfolding on_module_destroy
  on_module_destroy_lem q a b counted_emails counted_notifications = ground arith
