-- ===== src/Auth/Race.antt =====
-- Several refreshes with one token at a time: the awaits of `refresh` split it into steps, between which
-- other requests run.
use text.Mathlib.TextPositions.{eq_refl}
use backend_boilerplate.Base.{
  Option, ◌≤◌, sym, ◌∙◌, refl, subst, eq_iff, Result-cases, Option-cases, arith, Bool, Bool-cases,
  String, false, if◌then◌else◌, inl, inr, ltb, nat_eq, none, ok, some, true, ℕ, ◌≡◌, ◌≢◌, ◌⊎◌,
}
use backend_boilerplate.Users.{User}
use backend_boilerplate.Auth.Expiry.{expires_at}
use backend_boilerplate.Auth.Types.{RefreshToken, World}
use backend_boilerplate.Auth.{
  Services, find_refresh_token_with_user, generate_tokens, delete_refresh_token, save_refresh_token,
}

-- How far a refresh has come: its user has passed the tests, with the new token signed; the old token
-- is deleted; the new one is stored.
pub data Phase : Type 0 where
  requested failed : Phase
  checked deleted : User → (new : String) → Phase
  answered : Phase

pub record Race (Us Tk : Type 0) : Type 0 where
  pub world : World Us Tk
  pub phase : ℕ → Phase

abbrev pub move : (ℕ → Phase) → ℕ → Phase → ℕ → Phase
move f i p j = if nat_eq i j then p else f j

module _ {Us Tk : Type 0} (S : Services Us Tk) where
  pub data Step (token : String) : Race Us Tk → Race Us Tk → Type 0 where
    checks :
        (s : Race Us Tk) (i : ℕ) (row : RefreshToken) (u : User) (access new : String)
        → s.phase i ≡ requested
        → find_refresh_token_with_user S token s.world ≡ (ok (some (row, u)), s.world)
        → ltb row.expires_at (s.world).now ≡ false
        → u.is_active ≡ true
        → generate_tokens S u s.world ≡ (ok (access, new), s.world)
        → Step token s (record s { phase = move s.phase i (checked u new) })
    deletes :
        (s : Race Us Tk) (i : ℕ) (u : User) (new : String) (w : World Us Tk)
        → s.phase i ≡ checked u new
        → delete_refresh_token S token s.world ≡ (ok tt, w)
        → Step token s (record { world = w; phase = move s.phase i (deleted u new) })
    saves :
        (s : Race Us Tk) (i : ℕ) (u : User) (new : String) (w : World Us Tk)
        → s.phase i ≡ deleted u new
        → save_refresh_token S u.id new s.world ≡ (ok tt, w)
        → Step token s (record { world = w; phase = move s.phase i answered })
    -- an exception at any point
    fails : (s : Race Us Tk) (i : ℕ) → Step token s (record s { phase = move s.phase i failed })
    -- any other request, which stores no such token, and the passing of time
    others :
        (s : Race Us Tk) (w : World Us Tk)
        → (s.world).now ≤ w.now
        → ((S.tokens).rows w.tokens token ≡ (S.tokens).rows (s.world).tokens token)
          ⊎ ((S.tokens).rows w.tokens token ≡ none)
        → Step token s (record s { world = w })

  pub data Reach (token : String) (s : Race Us Tk) : Race Us Tk → Type 0 where
    start : Reach token s s
    next : {t u : Race Us Tk} → Reach token s t → Step token t u → Reach token s u

  -- Whether a refresh is past the deletion, and has not failed.
  abbrev pub past : Phase → Bool
  past (deleted u new) = true
  past answered = true
  past _ = false

  -- One refresh at most is past the deletion, and then the token is gone.
  abbrev pub Single : String → Race Us Tk → Type 0
  Single token s =
      ((i j : ℕ) → past (s.phase i) ≡ true → past (s.phase j) ≡ true → i ≡ j)
      × ((i : ℕ) → past (s.phase i) ≡ true → (S.tokens).rows (s.world).tokens token ≡ none)

  -- A step that takes no refresh past the deletion.
  keeps :
      (token : String) (s : Race Us Tk) (i : ℕ) (p : Phase) (w : World Us Tk)
      → (past p ≡ true → past (s.phase i) ≡ true)
      → ((S.tokens).rows (s.world).tokens token ≡ none → (S.tokens).rows w.tokens token ≡ none)
      → Single token s
      → Single token (record { world = w; phase = move s.phase i p })
  keeps token s i p w same gone (one, absent) =
      ((λ j k a b. one j k (back j a) (back k b)), (λ j a. gone (absent j (back j a))))
    where
      back : (j : ℕ) → past (move s.phase i p j) ≡ true → past (s.phase j) ≡ true
      back j a = elim (Bool-cases (nat_eq i j)) [
        | inl here ↦
            let same_one : i ≡ j = ground (arith, here) in
            subst (λ k. past (s.phase k) ≡ true) same_one (same (rw here at a))
        | inr other ↦ (rw other at a)
      ]

  -- The deletion: it succeeds only while the token is there, so that no other refresh is past it.
  passes :
      (token : String) (s : Race Us Tk) (i : ℕ) (p : Phase) (w : World Us Tk)
      → ((S.tokens).rows (s.world).tokens token ≢ none)
      → (S.tokens).rows w.tokens token ≡ none
      → Single token s
      → Single token (record { world = w; phase = move s.phase i p })
  passes token s i p w there gone (one, absent) =
      ((λ j k a b. sym (only j a) ∙ only k b), (λ j a. gone))
    where
      only : (j : ℕ) → past (move s.phase i p j) ≡ true → i ≡ j
      only j a = elim (Bool-cases (nat_eq i j)) [
        | inl here ↦ ground (arith, here)
        | inr other ↦ absurd (there (absent j (rw other at a)))
      ]

  deleted_rows :
      (token : String) (w w' : World Us Tk)
      → delete_refresh_token S token w ≡ (ok tt, w')
      → ((S.tokens).rows w.tokens token ≢ none) × ((S.tokens).rows w'.tokens token ≡ none)
  deleted_rows token w w' e = elim (Result-cases ((S.tokens).delete w.tokens token)) [
    | inr (x, bad) ↦ absurd (ground (arith, bad))
    | inl (t, fine) ↦ (
      (λ absent. ground (arith, fine, absent, (S.tokens).delete_found w.tokens token)),
      ground (arith, fine, (S.tokens).delete_rows w.tokens token token, eq_refl token),
    )
  ]

  saved_rows :
      (token user_id new : String) (w w' : World Us Tk)
      → save_refresh_token S user_id new w ≡ (ok tt, w')
      → new ≢ token
      → (S.tokens).rows w'.tokens token ≡ (S.tokens).rows w.tokens token
  unfolding save_refresh_token
  saved_rows token user_id new w w' e other = elim (Option-cases S.config) [
    | inl bare ↦ absurd (ground (arith, bare))
    | inr (c, known) ↦ elim (Result-cases (expires_at (c.refresh).expires_in w.now)) [
      | inr (x, bad) ↦ absurd (ground (arith, known, bad))
      | inl (t, expiry) ↦
          let row : RefreshToken = record { token = new; user_id = user_id; expires_at = t } in
          elim (Result-cases ((S.tokens).create w.tokens new row)) [
            | inr (x, bad) ↦ absurd (ground (arith, known, expiry, bad))
            | inl (tk, created) ↦ ground (
              arith,
              known,
              expiry,
              created,
              (S.tokens).create_rows w.tokens new row token,
              eq_iff new token,
            )
          ]
    ]
  ]

  -- From a time on, no refresh signs this text: two are signed alike in one second.
  abbrev pub Unsigned : String → ℕ → Type 0
  Unsigned token since =
      (w : World Us Tk) (u : User) (access new : String)
      → since ≤ w.now
      → generate_tokens S u w ≡ (ok (access, new), w)
      → new ≢ token

  -- The token that a refresh has signed and not stored yet.
  abbrev pub signed : Phase → Option String
  signed (checked u new) = some new
  signed (deleted u new) = some new
  signed _ = none

  -- No refresh is about to store the token again.
  abbrev pub Fresh : String → (ℕ → Phase) → Type 0
  Fresh token f = (i : ℕ) (new : String) → signed (f i) ≡ some new → new ≢ token

  move-Fresh :
      (token : String) (f : ℕ → Phase) (i : ℕ) (p : Phase)
      → ((new : String) → signed p ≡ some new → new ≢ token)
      → Fresh token f
      → Fresh token (move f i p)
  move-Fresh token f i p here h j new e = elim (Bool-cases (nat_eq i j)) [
    | inl same ↦ here new (rw same at e)
    | inr other ↦ h j new (rw other at e)
  ]

  saved_now :
      (user_id new : String) (w w' : World Us Tk)
      → save_refresh_token S user_id new w ≡ (ok tt, w')
      → w'.now ≡ w.now
  unfolding save_refresh_token
  saved_now user_id new w w' e = ground arith

  deleted_now :
      (token : String) (w w' : World Us Tk)
      → delete_refresh_token S token w ≡ (ok tt, w')
      → w'.now ≡ w.now
  deleted_now token w w' e = ground arith

  abbrev pub Safe : String → ℕ → Race Us Tk → Type 0
  Safe token since s = Single token s × Fresh token s.phase × (since ≤ (s.world).now)

  step-Safe :
      {token : String} {since : ℕ} {s t : Race Us Tk}
      → Unsigned token since
      → Safe token since s
      → Step token s t
      → Safe token since t
  step-Safe {token} {since} unsigned (h, fresh, late)
        (checks s i row u access new asked found valid active made) =
      (
        keeps token s i (checked u new) s.world (λ a. absurd (ground arith)) (λ gone. gone) h,
        move-Fresh token s.phase i (checked u new)
            (λ x e. subst (λ y. y ≢ token) (ground arith) (unsigned s.world u access new late made))
            fresh,
        late,
      )
  step-Safe {token} unsigned (h, fresh, late) (deletes s i u new w ready gone) =
      let (there, absent) = deleted_rows token s.world w gone in
      let same = deleted_now token s.world w gone in
      (
        passes token s i (deleted u new) w there absent h,
        move-Fresh token s.phase i (deleted u new) (λ x e. fresh i x (rw ready e)) fresh,
        omega arith,
      )
  step-Safe {token} unsigned (h, fresh, late) (saves s i u new w ready saved) =
      let same = saved_now u.id new s.world w saved in
      let other : new ≢ token = fresh i new (rw ready refl) in
      (
        keeps token s i answered w (λ a. rw ready refl)
            (λ gone. saved_rows token u.id new s.world w saved other ∙ gone) h,
        move-Fresh token s.phase i answered (λ x e. absurd (ground arith)) fresh,
        omega arith,
      )
  step-Safe {token} unsigned (h, fresh, late) (fails s i) = (
    keeps token s i failed s.world (λ a. absurd (ground arith)) (λ gone. gone) h,
    move-Fresh token s.phase i failed (λ x e. absurd (ground arith)) fresh,
    late,
  )
  step-Safe {token} unsigned ((one, absent), fresh, late) (others s w later (inl same)) =
      ((one, (λ i a. same ∙ absent i a)), fresh, omega arith)
  step-Safe {token} unsigned ((one, absent), fresh, late) (others s w later (inr gone)) =
      ((one, (λ i a. gone)), fresh, omega arith)

  reach-Safe :
      {token : String} {since : ℕ} {s t : Race Us Tk}
      → Unsigned token since
      → Safe token since s
      → Reach token s t
      → Safe token since t
  reach-Safe unsigned h start = h
  reach-Safe unsigned h (next r step) = step-Safe unsigned (reach-Safe unsigned h r) step

  -- Provided that from the start on no refresh signs the token's own text again, which it would within
  -- the second of its issue: of the refreshes that run with one token at a time, however their
  -- steps are interleaved with each other and with requests that store no such token, at most one is
  -- answered, and then the token is gone.
  pub answered_once :
      {token : String} {s t : Race Us Tk} (i j : ℕ)
      → Unsigned token (s.world).now
      → ((k : ℕ) → s.phase k ≡ requested)
      → Reach token s t
      → t.phase i ≡ answered
      → t.phase j ≡ answered
      → (i ≡ j) × ((S.tokens).rows (t.world).tokens token ≡ none)
  answered_once {token} {s} {t} i j unsigned idle r first second =
      let ((one, absent), _, _) =
        reach-Safe unsigned (none_past, (λ k new e. absurd (ground (arith, idle k))), omega arith)
          r in
      (one i j (rw first refl) (rw second refl), absent i (rw first refl))
    where
      none_past : Single token s
      none_past =
          ((λ k l a b. absurd (ground (arith, idle k))), (λ k a. absurd (ground (arith, idle k))))
