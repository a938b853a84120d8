-- ===== src/User/Tests.antt =====
-- The service at a table with one user.
use backend_boilerplate.Base.{arith, List, [], none, ok, refl, some, suc, ℕ, ◌*◌, ◌∷◌, ◌≡◌}
use backend_boilerplate.Users.{User, Role}
use backend_boilerplate.Users.Sample.{sample_steps}
use backend_boilerplate.Events.{Event, Change, user_created, user_updated, user_deleted}
use backend_boilerplate.Pagination.{PaginationMeta, PageCount, drop, page_meta, skip_of, page_count}
use backend_boilerplate.Pagination.Complete.{gather}
use backend_boilerplate.User.{
  CreateUserDto, UpdateUserDto, QueryUserDto, World, create, update, remove, find_one, find_all,
  to_response_dto, to_response_dtos, find_by_email,
}
use backend_boilerplate.User.Account.{Created, create-Created}
use backend_boilerplate.User.Listed.{ids, find_all_complete}
use backend_boilerplate.User.Sample.{services, ann}
use backend_boilerplate.User.Phone.{with_cipher, create-find_one}
use backend_boilerplate.Crypto.{encrypt, decrypt, split_colon, utf8_length}
use backend_boilerplate.Crypto.Sample.{plain_crypto, letters, printed, read}

abbrev Here : Type 0
Here = World (List User)

abbrev empty : Here
empty = record { users = []; events = []; now = 7 }

abbrev one : List Event → Here
one events = record { users = ann ∷ []; events = events; now = 7 }

abbrev dto : CreateUserDto
dto = record {
  email = "a@x.org";
  password = "secret";
  first_name = some "Ann";
  last_name = none;
  phone = some "555";
  role = none;
}

abbrev edit : UpdateUserDto
edit = record {
  first_name = none;
  last_name = some (some "Lee");
  phone = some (some "");
  role = none;
  is_active = none;
}

abbrev lee : User
lee = record ann { last_name = some "Lee" }

abbrev edited : Here
edited = record {
  users = lee ∷ ann ∷ [];
  events =
      user_updated "u1" "a@x.org" (("lastName", Change.text "Lee") ∷ ("phone", Change.text "") ∷ [])
      ∷ [];
  now = 7;
}

abbrev query : QueryUserDto
query = record {
  page = none;
  limit = some 1;
  search = none;
  role = none;
  sort_by = none;
  sort_order = none;
}

run : Unit {0}
unfolding create update remove find_one find_all to_response_dto to_response_dtos find_by_email
    page_meta skip_of sample_steps
run = tt

user_tests :
    (create services dto empty ≡ (ok ann, one (user_created "u1" "a@x.org" Role.user ∷ [])))
    × (update services "u1" edit (one []) ≡ (ok lee, edited))
    × (remove services "u1" (one [])
        ≡ (ok tt, record empty { events = user_deleted "u1" "a@x.org" ∷ [] }))
    × (find_all services query (one []) ≡ (ok (ann ∷ [], page_meta 1 1 1), one []))
unfolding run
user_tests = (refl, refl, refl, refl)

create-Created_example :
    Created services empty (one (user_created "u1" "a@x.org" Role.user ∷ [])) dto ann
create-Created_example =
    create-Created services empty (one (user_created "u1" "a@x.org" Role.user ∷ [])) dto ann
      user_tests.0

-- One row a page: the first holds the user, the others nothing.
abbrev answers : ℕ → List User × PaginationMeta
answers (ℕ.suc ℕ.zero) = (ann ∷ [], page_meta 1 1 1)
answers p = ([], page_meta p 1 1)

drop-nil : (n : ℕ) → drop {A = User} n [] ≡ []
drop-nil ℕ.zero = refl
drop-nil (ℕ.suc n) = refl

asked :
    (p : ℕ)
    → find_all services (record query { page = some (suc p) }) (one [])
      ≡ (ok (answers (suc p)), one [])
unfolding run
asked ℕ.zero = refl
asked (ℕ.suc p) = let e : suc p * 1 ≡ suc p = omega arith in ground (arith, drop-nil p)

counted : ((answers 1).1).total_pages ≡ PageCount.finite 1
unfolding run page_count
counted = refl

find_all_complete_example : gather (λ p. ids (answers p).0) 1 1 ≡ "u1" ∷ []
find_all_complete_example =
    find_all_complete services (one []) query answers 1 ((λ e. refl, tt), tt) asked counted

-- Over the service's own cipher.
abbrev sealed_phone : Here
sealed_phone = record {
  users = record ann { phone = some "1i1v:1i1v:151515" } ∷ [];
  events = user_created "u1" "a@x.org" Role.user ∷ [];
  now = 7;
}

create-find_one_example :
    find_one (with_cipher services plain_crypto letters (ok "iv")) "u1" sealed_phone
    ≡ (ok ann, sealed_phone)
unfolding run encrypt decrypt split_colon utf8_length printed read
create-find_one_example =
    create-find_one services plain_crypto letters (ok "iv") empty sealed_phone dto ann
      (some (record ann { phone = some "1i1v:1i1v:151515" })) refl refl
