-- ===== src/User/Sample.antt =====
-- The listing of a list of users, in its order, and the service over it.
use backend_boilerplate.Base.{
  Ensures, List, Option, Result, String, error, length, none, ok, refl, some, throw, true, ℕ,
}
use backend_boilerplate.Users.{User, Role}
use backend_boilerplate.Users.Sample.{sample_users, clear_argon2, clear_cipher}
use backend_boilerplate.Pagination.{Window, Listing, take, drop}
use backend_boilerplate.User.{SortOrder, UserWhere, Services}

abbrev pub refuse_negative : List User → Option ℕ → ℕ → Result (List User)
refuse_negative us none n = throw (error "Invalid value for skip argument")
refuse_negative us (some k) n = ok (take n (drop k us))

abbrev pub any_window :
    (us : List User) (k : Option ℕ) (n : ℕ) → Ensures (Window k n us) (refuse_negative us k n)
any_window us none n = tt
any_window us (some k) n = refl

-- Every user, in the table's order.
abbrev pub whole : Listing (List User) UserWhere (String × SortOrder) User
whole = record {
  matching = λ us w o k n. us;
  rank = λ o u. u.created_at;
  count = λ us w. ok (length us);
  find_many = λ us w o k n. refuse_negative us k n;
  count_lem = λ us w o k n. refl;
  find_many_lem = λ us w o k n. any_window us k n;
  untied_order = λ us w o k j n m h. refl;
}

abbrev pub services : Services (List User)
services = record {
  users = sample_users;
  listing = whole;
  argon2 = clear_argon2;
  crypto = clear_cipher;
}

abbrev pub ann : User
ann = record {
  id = "u1";
  email = "a@x.org";
  password = "secret";
  first_name = some "Ann";
  last_name = none;
  phone = some "555";
  role = Role.user;
  is_active = true;
  created_at = 7;
  updated_at = 7;
}
