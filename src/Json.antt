-- ===== src/Json.antt =====
-- JSON values as the HTTP layer hands them on; numbers are natural ones.
use backend_boilerplate.Base.{
  Bool, Option, String, false, if◌then◌else◌, nat_eq, none, not, some, true, truthy, ℕ, ◌==◌,
}

mutual
  pub data Json : Type 0 where
    null : Json
    bool : Bool → Json
    num : ℕ → Json
    str : String → Json
    arr : Items → Json
    obj : Fields → Json

  pub data Items : Type 0 where
    nil : Items
    cons : Json → Items → Items

  pub data Fields : Type 0 where
    end : Fields
    field : String → Json → Fields → Fields

-- Whether `if (v)` takes the branch.
abbrev pub truthy_json : Json → Bool
truthy_json null = false
truthy_json (bool b) = b
truthy_json (num n) = not (nat_eq n 0)
truthy_json (str s) = truthy s
truthy_json (arr xs) = true
truthy_json (obj fs) = true

-- The value of a key, `undefined` as `none`.
abbrev pub value_of : String → Fields → Option Json
value_of k end = none
value_of k (field j v fs) = if j == k then some v else value_of k fs
