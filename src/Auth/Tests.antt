-- ===== src/Auth/Tests.antt =====
-- The service at a table with one user, with texts for tokens.
use Prim.Native.Char.{code}
use Prim.Native.String.{◌++◌ as str_append}
use text.Mathlib.TextLemmas.{nil-append, cons-append}
use backend_boilerplate.Auth.Sample.{stamp}
use backend_boilerplate.Base.{
  nat_eq, ◌/◌, ◌-◌, Bool, false, suc, inl, ◌↔◌, arith, ap, All, ◌≢◌, true, ◌++◌, [], none, ◌∷◌,
  some, List, throw, String, ok, ℕ, ◌≡◌, refl,
}
use backend_boilerplate.Auth.Expiry.Format.{letter, decimal_from, expires_match_iff}
use backend_boilerplate.Store.Assoc.{assoc_steps, at}
use backend_boilerplate.Users.{User}
use backend_boilerplate.Users.Sample.{sample_steps}
use backend_boilerplate.Events.{Event, user_login, user_logout}
use backend_boilerplate.Auth.Types.{ExpiresIn, RefreshToken, LoginDto, AuthResponseDto, World}
use backend_boilerplate.Auth.Expiry.{digit, TimeUnit, expires_at, expires_match, codes}
use backend_boilerplate.Auth.{
  Services, unauthorized, login, refresh, logout, validate_user, generate_tokens,
  save_refresh_token, respond, clear_phone,
}
use backend_boilerplate.Auth.Logout.{refresh-logout}
use backend_boilerplate.Auth.Success.{Issued}
use backend_boilerplate.Auth.Login.{login-Granted, Granted}
use backend_boilerplate.Auth.Rotation.{refresh-Rotated, Rotated}
use backend_boilerplate.Auth.Race
use backend_boilerplate.Auth.Sample.{stamp, jwt_config, services, ann}

abbrev Here : Type 0
Here = World (List User) (List (String × RefreshToken))

abbrev row : String → ℕ → RefreshToken
row token t = record { token = token; user_id = "u1"; expires_at = t }

-- At a millisecond, with these tokens and events.
abbrev at_time : ℕ → List (String × RefreshToken) → List Event → Here
at_time now tokens events = record { users = ann ∷ []; tokens = tokens; events = events; now = now }

abbrev start : Here
start = at_time 1500 [] []

abbrev greeted : List Event
greeted = user_login "u1" "a@x.org" ∷ []

abbrev after_login : Here
after_login = at_time 1500 (("r10", row "r10" 604801500) ∷ []) greeted

abbrev dto : LoginDto
dto = record { email = "a@x.org"; password = "secret" }

abbrev answer : String → String → AuthResponseDto
answer access refresh = record { user = ann; access_token = access; refresh_token = refresh }

-- A second later.
abbrev later : Here
later = at_time 2500 (("r10", row "r10" 604801500) ∷ []) greeted

abbrev after_refresh : Here
after_refresh = at_time 2500 (("r110", row "r110" 604802500) ∷ []) greeted

run : Unit {0}
unfolding login refresh logout validate_user generate_tokens save_refresh_token respond clear_phone
    assoc_steps sample_steps stamp expires_at expires_match
run = tt

auth_tests :
    (login services dto start ≡ (ok (answer "a10" "r10"), after_login))
    × (refresh services "r10" later ≡ (ok (answer "a110" "r110"), after_refresh))
    × ((refresh services "r10" after_refresh).0
        ≡ throw (unauthorized "Invalid or expired refresh token"))
    × ((login services (record dto { password = "x" }) start).0
        ≡ throw (unauthorized "Invalid credentials"))
    × ((logout services "u1" none later)
        ≡ (ok tt, at_time 2500 [] (greeted ++ user_logout "u1" "a@x.org" ∷ [])))
    × (expires_match (codes "36h") ≡ some (36, TimeUnit.h))
unfolding run
auth_tests = (refl, refl, refl, refl, refl, refl)

login-Granted_example : Granted services start after_login dto (answer "a10" "r10")
login-Granted_example =
    login-Granted services start after_login dto (answer "a10" "r10") auth_tests.0

-- A millisecond later.
abbrev again : Here
again = at_time 1501 (("r10", row "r10" 604801500) ∷ []) greeted

refresh-Rotated_example : Rotated services later after_refresh "r10" (answer "a110" "r110")
refresh-Rotated_example =
    refresh-Rotated services later after_refresh "r10" (answer "a110" "r110") auth_tests.1

abbrev misconfigured : Services (List User) (List (String × RefreshToken))
misconfigured = record services {
  config = some (record jwt_config {
    refresh = record { secret = "r"; expires_in = ExpiresIn.text "1 week" };
  });
}

expires_match_iff_example : (expires_match (codes "36h") ≡ some (36, TimeUnit.h)) ↔ (
    (ds : List ℕ) × (ds ≢ [])
    × All (λ x. digit x ≡ true) ds
    × (codes "36h" ≡ ds ++ letter TimeUnit.h ∷ [])
    × (36 ≡ decimal_from 0 ds))
expires_match_iff_example = expires_match_iff (codes "36h") 36 TimeUnit.h

login_issued : Issued services start ann []
unfolding run
login_issued = record {
  config = jwt_config;
  access = "a10";
  refresh = "r10";
  expires = 604801500;
  after = ("r10", row "r10" 604801500) ∷ [];
  phone = some "555";
  configured = refl;
  access_signed = refl;
  refresh_signed = refl;
  parsed = refl;
  saved = refl;
  shown = refl;
}

refresh_issued : Issued services later ann []
unfolding run
refresh_issued = record {
  config = jwt_config;
  access = "a110";
  refresh = "r110";
  expires = 604802500;
  after = ("r110", row "r110" 604802500) ∷ [];
  phone = some "555";
  configured = refl;
  access_signed = refl;
  refresh_signed = refl;
  parsed = refl;
  saved = refl;
  shown = refl;
}

abbrev logged_off : Here
logged_off = at_time 2500 [] (greeted ++ user_logout "u1" "a@x.org" ∷ [])

refresh-logout_example : ¬ (refresh services "r10" logged_off ≡ (ok (answer "a" "r"), logged_off))
unfolding run
refresh-logout_example =
    refresh-logout services start after_login later logged_off logged_off logged_off dto
      (answer "a10" "r10") (answer "a" "r") none ann auth_tests.0 refl refl (inl refl) auth_tests.4
      refl

-- Two refreshes with one token: both pass the tests, and one goes on to its answer.
abbrev Racing : Type 0
Racing = Race.Race (List User) (List (String × RefreshToken))

abbrev both_asked : Racing
both_asked = record { world = later; phase = λ i. Race.requested }

abbrev one_checked : Racing
one_checked = record both_asked { phase = Race.move both_asked.phase 0 (Race.checked ann "r110") }

abbrev both_checked : Racing
both_checked = record one_checked {
  phase = Race.move one_checked.phase 1 (Race.checked ann "r110");
}

abbrev one_deleted : Racing
one_deleted = record {
  world = at_time 2500 [] greeted;
  phase = Race.move both_checked.phase 0 (Race.deleted ann "r110");
}

abbrev one_answered : Racing
one_answered = record { world = after_refresh; phase = Race.move one_deleted.phase 0 Race.answered }

race : Race.Reach services "r10" both_asked one_answered
unfolding run
race =
    Race.next
      (Race.next
        (Race.next
          (Race.next Race.start (
            Race.checks both_asked 0 (row "r10" 604801500) ann "a110" "r110" refl refl refl refl
              refl))
          (Race.checks one_checked 1 (row "r10" 604801500) ann "a110" "r110" refl refl refl refl
            refl))
        (Race.deletes both_checked 0 ann "r110" (at_time 2500 [] greeted) refl refl))
      (Race.saves one_deleted 0 ann "r110" after_refresh refl refl)

abbrev third : String → Bool
third String.[] = false
third (String.◌∷◌ a String.[]) = false
third (String.◌∷◌ a (String.◌∷◌ b String.[])) = false
third (String.◌∷◌ a (String.◌∷◌ b (String.◌∷◌ c s))) = nat_eq (code c) b'1'

two_marks : (n : ℕ) → third (str_append "r" (stamp (suc (suc n)))) ≡ true
unfolding stamp
two_marks n = rw (cons-append, nil-append, cons-append, nil-append, cons-append) refl

-- From the third second on, no token is that of the second one.
unsigned : Race.Unsigned services "r10" 2500
unfolding run
unsigned w u access new late made same =
    let n : ℕ = w.now / 1000 - 2 in
    let from : w.now / 1000 ≡ suc (suc n) = omega arith in
    let shape : new ≡ str_append "r" (stamp (w.now / 1000)) = ground arith in
    let marked : third new ≡ true = rw (shape, from) (two_marks n) in
    let unmarked : third new ≡ false = ap third same in absurd (ground (arith, marked, unmarked))

answered_once_example :
    (◌≡◌ {A = ℕ} 0 0) × (at {V = RefreshToken} after_refresh.tokens "r10" ≡ none)
answered_once_example = Race.answered_once services 0 0 unsigned (λ k. refl) race refl refl
