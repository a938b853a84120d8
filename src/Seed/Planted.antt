-- ===== src/Seed/Planted.antt =====
-- What a seeding leaves in the database.
use text.Mathlib.TextPositions.{eq_refl}
use backend_boilerplate.Base.{
  false, All, sym, ==-refl, Bool-cases, List, Option, Result-cases, String, [], arith, eq_iff,
  if◌then◌else◌, inl, inr, none, ok, refl, some, true, ◌==◌, ◌∙◌, ◌∷◌, ◌≡◌, ◌⊎◌,
}
use backend_boilerplate.Users.{User, UserTable, Argon2}
use backend_boilerplate.Store.{Table}
use backend_boilerplate.FeatureFlag.Ports.{FeatureFlag}
use backend_boilerplate.Seed.{
  Database, Account, admin_account, test_account, feature_flags, input_of, seed_account, seed_flag,
  seed_flags, main,
}

-- The row of a key after the flags are seeded: the one that is there, or the first that is listed.
abbrev pub planted : List FeatureFlag → Option FeatureFlag → String → Option FeatureFlag
planted flags (some f) key = some f
planted [] none key = none
planted (f ∷ flags) none key = if f.key == key then some f else planted flags none key

module _ {Us Db : Type 0} (U : UserTable Us) (A : Argon2) (T : Table Db FeatureFlag) where
  abbrev pub AccountPlanted : Account → Database Us Db → Database Us Db → Type 0
  AccountPlanted a d d' =
      (u : User) × ((U.by_email d'.users a.email ≡ some u)
        × ((U.by_email d.users a.email ≡ some u)
            ⊎ ((U.by_email d.users a.email ≡ none)
                × (A.hash a.password ≡ ok u.password)
                × (u.role ≡ a.role)
                × (u.is_active ≡ true))))

  abbrev OthersKept : Account → Database Us Db → Database Us Db → Type 0
  OthersKept a d d' =
      (j : String) → (a.email == j) ≡ false → U.by_email d'.users j ≡ U.by_email d.users j

  abbrev AccountStep : Account → Database Us Db → Database Us Db → Type 0
  AccountStep a d d' = AccountPlanted a d d' × OthersKept a d d' × (d'.flags ≡ d.flags)

  seed_account-step :
      (a : Account) (d d' : Database Us Db)
      → seed_account U A T a d ≡ (ok tt, d')
      → AccountStep a d d'
  unfolding seed_account
  seed_account-step a d d' e = elim (Result-cases (U.find_by_email d.users a.email)) [
    | inr (x, bad) ↦ absurd (ground arith)
    | inl (some u, found) ↦ (
      (u, ground (arith, U.find_by_email_lem d.users a.email)),
      (λ j h. ground arith),
      ground arith,
    )
    | inl (none, absent) ↦ elim (Result-cases (A.hash a.password)) [
      | inr (x, bad) ↦ absurd (ground arith)
      | inl (hashed, hash_ok) ↦ elim (Result-cases (U.create d.users (input_of a hashed) d.now)) [
        | inr (x, bad) ↦ absurd (ground arith)
        | inl ((u, us), created) ↦ (
          (
            u,
            ground (
              arith,
              U.find_by_email_lem d.users a.email,
              eq_refl a.email,
              U.create_row d.users (input_of a hashed) d.now,
              U.create_by_email d.users (input_of a hashed) d.now a.email,
            ),
          ),
          (λ j h. ground (
            arith,
            eq_iff a.email j,
            U.create_unique d.users (input_of a hashed) d.now,
            U.create_by_email d.users (input_of a hashed) d.now j,
          )),
          ground arith,
        )
      ]
    ]
  ]

  -- A lookup that throws, or finds the account, changes nothing.
  seed_account-present :
      (a : Account) (d : Database Us Db) (u : User)
      → U.by_email d.users a.email ≡ some u
      → (seed_account U A T a d).1 ≡ d
  unfolding seed_account
  seed_account-present a d u there = ground (arith, U.find_by_email_lem d.users a.email)

  abbrev FlagStep : FeatureFlag → Database Us Db → Database Us Db → Type 0
  FlagStep f d d' =
      ((k : String) → T.rows d'.flags k ≡ planted (f ∷ []) (T.rows d.flags k) k)
      × (d'.users ≡ d.users)

  seed_flag-step :
      (f : FeatureFlag) (d d' : Database Us Db)
      → seed_flag U A T f d ≡ (ok tt, d')
      → FlagStep f d d'
  unfolding seed_flag
  seed_flag-step f d d' e = elim (Result-cases (T.find_unique d.flags f.key)) [
    | inr (x, bad) ↦ absurd (ground arith)
    | inl (some g, found) ↦
        ((λ k. ground (arith, T.find_unique_lem d.flags f.key, eq_iff f.key k)), ground arith)
    | inl (none, absent) ↦ elim (Result-cases (T.create d.flags f.key f)) [
      | inr (x, bad) ↦ absurd (ground arith)
      | inl (t, created) ↦ (
        (λ k. ground (
          arith,
          T.find_unique_lem d.flags f.key,
          T.create_rows d.flags f.key f k,
          eq_iff f.key k,
        )),
        ground arith,
      )
    ]
  ]

  seed_flag-present :
      (f g : FeatureFlag) (d : Database Us Db)
      → T.rows d.flags f.key ≡ some g
      → (seed_flag U A T f d).1 ≡ d
  unfolding seed_flag
  seed_flag-present f g d there = ground (arith, T.find_unique_lem d.flags f.key)

  planted_nil : (o : Option FeatureFlag) (k : String) → planted [] o k ≡ o
  planted_nil none k = refl
  planted_nil (some f) k = refl

  planted-planted :
      (f : FeatureFlag) (fs : List FeatureFlag) (o : Option FeatureFlag) (k : String)
      → planted fs (planted (f ∷ []) o k) k ≡ planted (f ∷ fs) o k
  planted-planted f [] none k = elim (Bool-cases (f.key == k)) [
    | inl same ↦ rw same refl
    | inr other ↦ rw other refl
  ]
  planted-planted f [] (some g) k = refl
  planted-planted f (g ∷ fs) (some h) k = refl
  planted-planted f (g ∷ fs) none k = elim (Bool-cases (f.key == k)) [
    | inl same ↦ rw same refl
    | inr other ↦ rw other refl
  ]

  pub seed_flags_rows :
      (fs : List FeatureFlag) (d d' : Database Us Db)
      → seed_flags U A T fs d ≡ (ok tt, d')
      → ((k : String) → T.rows d'.flags k ≡ planted fs (T.rows d.flags k) k) × (d'.users ≡ d.users)
  unfolding seed_flags
  seed_flags_rows [] d d' e =
      ((λ k. rw (sym (planted_nil (T.rows d.flags k) k)) (ground arith)), ground arith)
  seed_flags_rows (f ∷ fs) d d' e = elim (Result-cases (seed_flag U A T f d).0) [
    | inr (x, bad) ↦ absurd (ground (arith, bad))
    | inl (done, first_ok) ↦
        let (rows, users) = seed_flag-step f d (seed_flag U A T f d).1 (ground (arith, first_ok)) in
        let (later, same) =
          seed_flags_rows fs (seed_flag U A T f d).1 d' (ground (arith, first_ok)) in
        ((λ k. later k ∙ (rw (rows k) (planted-planted f fs (T.rows d.flags k) k))), same ∙ users)
  ]

  -- The keys of a list are all in the table.
  abbrev pub AllPresent : List FeatureFlag → Database Us Db → Type 0
  AllPresent fs d = All (λ f. (g : FeatureFlag) × (T.rows d.flags f.key ≡ some g)) fs

  seed_flags-present :
      (fs : List FeatureFlag) (d : Database Us Db) → AllPresent fs d → (seed_flags U A T fs d).1 ≡ d
  unfolding seed_flags
  seed_flags-present [] d there = refl
  seed_flags-present (f ∷ fs) d ((g, there), others) =
      let same = seed_flag-present f g d there in
      elim (Result-cases (seed_flag U A T f d).0) [
        | inr (x, bad) ↦ rw (bad, same) refl
        | inl (done, fine) ↦ rw (fine, same) (seed_flags-present fs d others)
      ]

  planted_first :
      (f : FeatureFlag) (fs : List FeatureFlag) (o : Option FeatureFlag)
      → (g : FeatureFlag) × (planted (f ∷ fs) o f.key ≡ some g)
  planted_first f fs (some g) = (g, refl)
  planted_first f fs none = (f, rw (==-refl f.key) refl)

  planted_later :
      (f g : FeatureFlag) (fs : List FeatureFlag) (o : Option FeatureFlag) (k : String)
      → planted fs o k ≡ some g
      → (h : FeatureFlag) × (planted (f ∷ fs) o k ≡ some h)
  planted_later f g fs (some x) k e = (x, refl)
  planted_later f g fs none k e = elim (Bool-cases (f.key == k)) [
    | inl same ↦ (f, rw same refl)
    | inr other ↦ (g, rw other e)
  ]

  -- Once the listed flags are planted, each of their keys has a row.
  planted-present :
      (all fs : List FeatureFlag) (d d' : Database Us Db)
      → ((k : String) → T.rows d'.flags k ≡ planted all (T.rows d.flags k) k)
      → All (λ f. (g : FeatureFlag) × (planted all (T.rows d.flags f.key) f.key ≡ some g)) fs
      → AllPresent fs d'
  planted-present all [] d d' rows there = tt
  planted-present all (f ∷ fs) d d' rows ((g, here), others) =
      ((g, rows f.key ∙ here), planted-present all fs d d' rows others)

  every_planted :
      (o : String → Option FeatureFlag) (all fs : List FeatureFlag)
      → ((x : Option FeatureFlag) (k : String) (g : FeatureFlag)
          → planted fs x k ≡ some g
          → (h : FeatureFlag) × (planted all x k ≡ some h))
      → All (λ f. (g : FeatureFlag) × (planted all (o f.key) f.key ≡ some g)) fs
  every_planted o all [] grow = tt
  every_planted o all (f ∷ fs) grow = (
    (let (g, e) = planted_first f fs (o f.key) in grow (o f.key) f.key g e),
    every_planted o all fs
        (λ x k g e. let (h, later) = planted_later f g fs x k e in grow x k h later),
  )

  abbrev pub Seeded : Database Us Db → Database Us Db → Type 0
  Seeded d d' =
      AccountPlanted admin_account d d'
      × AccountPlanted test_account d d'
      × ((j : String)
          → (admin_account.email ≡ j)
            ⊎ ((test_account.email ≡ j) ⊎ (U.by_email d'.users j ≡ U.by_email d.users j)))
      × ((k : String) → T.rows d'.flags k ≡ planted feature_flags (T.rows d.flags k) k)
      × ((main U A T d').1 ≡ d')

  seeded_again :
      (d : Database Us Db) (u v : User)
      → U.by_email d.users admin_account.email ≡ some u
      → U.by_email d.users test_account.email ≡ some v
      → AllPresent feature_flags d
      → (main U A T d).1 ≡ d
  unfolding main
  seeded_again d u v first second flags =
      let a = seed_account-present admin_account d u first in
      let b = seed_account-present test_account d v second in
      elim (Result-cases (seed_account U A T admin_account d).0) [
        | inr (x, bad) ↦ rw (bad, a) refl
        | inl (done, fine) ↦ elim (Result-cases (seed_account U A T test_account d).0) [
          | inr (x, bad) ↦ rw (fine, a, bad, b) refl
          | inl (done', fine') ↦ rw (fine, a, fine', b) (seed_flags-present feature_flags d flags)
        ]
      ]

  abbrev FlagsPlanted : Database Us Db → Database Us Db → Type 0
  FlagsPlanted d d' =
      ((k : String) → T.rows d'.flags k ≡ planted feature_flags (T.rows d.flags k) k)
      × (d'.users ≡ d.users)

  elsewhere :
      (d d1 d2 d' : Database Us Db) (j : String)
      → ((admin_account.email == j) ≡ false → U.by_email d1.users j ≡ U.by_email d.users j)
      → ((test_account.email == j) ≡ false → U.by_email d2.users j ≡ U.by_email d1.users j)
      → d'.users ≡ d2.users
      → (admin_account.email ≡ j)
        ⊎ ((test_account.email ≡ j) ⊎ (U.by_email d'.users j ≡ U.by_email d.users j))
  elsewhere d d1 d2 d' j kept1 kept2 same = elim (Bool-cases (admin_account.email == j)) [
    | inl first ↦ inl ((eq_iff admin_account.email j).0 first)
    | inr other ↦ elim (Bool-cases (test_account.email == j)) [
      | inl second ↦ inr (inl ((eq_iff test_account.email j).0 second))
      | inr neither ↦ inr (inr (rw same (kept2 neither ∙ kept1 other)))
    ]
  ]

  assembled :
      (d d1 d2 d' : Database Us Db)
      → AccountStep admin_account d d1
      → AccountStep test_account d1 d2
      → FlagsPlanted d2 d'
      → Seeded d d'
  assembled d d1 d2 d' ((u, (u_row, u_new)), kept1, flags1) ((v, (v_row, v_new)), kept2, flags2)
        (rows, same) =
      let admin_row : U.by_email d'.users admin_account.email ≡ some u =
        rw same (kept2 admin_account.email refl ∙ u_row) in
      let test_row : U.by_email d'.users test_account.email ≡ some v = rw same v_row in
      let flags : d2.flags ≡ d.flags = flags2 ∙ flags1 in
      let all_rows : (k : String) → T.rows d'.flags k ≡ planted feature_flags (T.rows d.flags k) k =
        rw flags at rows in
      (
        (u, (admin_row, u_new)),
        (v, (test_row, rw (kept1 test_account.email refl) at v_new)),
        (λ j. elsewhere d d1 d2 d' j (kept1 j) (kept2 j) same),
        all_rows,
        seeded_again d' u v admin_row test_row (
            planted-present feature_flags feature_flags d d' all_rows
              (every_planted (T.rows d.flags) feature_flags feature_flags (λ x k g e. (g, e)))),
      )

  -- A seeding that returns leaves both accounts in the table: as they were if they were there,
  -- otherwise active, with their role and a hash of their password. Every other address is as before,
  -- and each flag has the row that it had or the first listed for its key. Another seeding,
  -- whether it returns or throws, then changes nothing.
  pub main-Seeded : (d d' : Database Us Db) → main U A T d ≡ (ok tt, d') → Seeded d d'
  unfolding main
  main-Seeded d d' e = elim (Result-cases (seed_account U A T admin_account d).0) [
    | inr (x, bad) ↦ absurd (ground (arith, bad))
    | inl (done, fine) ↦
        let d1 : Database Us Db = (seed_account U A T admin_account d).1 in
        elim (Result-cases (seed_account U A T test_account d1).0) [
          | inr (x, bad) ↦ absurd (ground (arith, fine, bad))
          | inl (done', fine') ↦
              let d2 : Database Us Db = (seed_account U A T test_account d1).1 in
              assembled d d1 d2 d' (seed_account-step admin_account d d1 (ground (arith, fine)))
                (seed_account-step test_account d1 d2 (ground (arith, fine')))
                (seed_flags_rows feature_flags d2 d' (ground (arith, fine, fine')))
        ]
  ]
