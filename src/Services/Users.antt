-- ===== src/Services/Users.antt =====
-- internal/services/user.go: accounts, and whether one may sign in.
pub mod Standing
pub mod Creation
use dvarpala.Base.{
  ℕ, ◌+◌, ◌-◌, ◌<◌, ◌&&◌, ◌||◌, not, Bool, true, false, Text, List, [], ◌∷◌, Option, none, some,
  map, keep, find, any, is_empty, to_lower, trim_space, text_eq, ltb, ◌==◌, if◌then◌else◌, index?,
  contains_any, length, codes,
}
use dvarpala.Models.{User, UserStatus, Group, UserGroup, Detail, text, number}
use dvarpala.Platform.{
  Env, Exec, World, Result, ok, err, Error, user_not_found, user_exists, invalid_email,
  user_inactive, pure, raise, ◌>>=◌, ◌>>◌, select, execute, insert,
}
use dvarpala.Platform.Database.{Table, Tables, add_row}
use dvarpala.Services.Audit.{Entry, log}

unfoldable pub normalise_email : Text → Text
normalise_email email = to_lower (trim_space email)

-- The first "@" is neither first nor last, and there is no blank and no tab.
unfoldable pub looks_like_email : Text → Bool
looks_like_email email = elim (index? b'@' email) [
  | none ↦ false
  | some at ↦
      ltb 0 at && ltb (at + 1) (length email) && not (contains_any (λ c. c == 32 || c == 9) email)
]

pub record CreateUserRequest : Type 0 where
  pub email : Text
  pub full_name : Text
  pub department : Text

-- A user with the groups that Preload fetches.
pub record Account : Type 0 where
  pub user : User
  pub groups : List Group

abbrev pub has_email : Text → User → Bool
has_email e u = text_eq u.email e

-- The rows that a soft delete has not hidden.
abbrev pub live_with_email : Text → User → Bool
live_with_email e u = text_eq u.email e && not u.deleted

abbrev pub in_groups : ℕ → List UserGroup → Group → Bool
in_groups user_id links g =
    any (λ (l : UserGroup). l.user_id == user_id && l.group_id == g.id) links

abbrev pub groups_of : ℕ → Tables → List Group
groups_of user_id t = keep (λ g. in_groups user_id t.user_groups g && not g.deleted) t.groups.rows

abbrev pub account_in : Tables → Option User → Option Account
account_in t none = none
account_in t (some u) = some (record { user = u; groups = groups_of u.id t })

abbrev pub account_of : Text → Tables → Option Account
account_of email t = account_in t (find (live_with_email email) t.users.rows)

abbrev pub new_user : Text → CreateUserRequest → ℕ → User
new_user email req id = record {
  id = id;
  email = email;
  full_name = req.full_name;
  department = req.department;
  status = UserStatus.active;
  last_login = none;
  deleted = false;
}

-- UPDATE of one live row.
abbrev pub update_user : ℕ → (User → User) → Tables → Tables
update_user id f t = record t {
  users = record (t.users) {
    rows = map (λ u. if u.id == id && not u.deleted then f u else u) t.users.rows;
  };
}

abbrev pub with_status : UserStatus → User → User
with_status s u = record u { status = s }

abbrev pub is_active : UserStatus → Bool
is_active UserStatus.active = true
is_active _ = false

-- The tunnels that deactivation closed: an error counts none.
abbrev pub killed : Option (Text → Option ℕ) → Text → ℕ
killed none email = 0
killed (some kill) email = elim (kill email) [ none ↦ 0 | some n ↦ n ]

abbrev pub status_text : UserStatus → Text
status_text UserStatus.active = codes "active"
status_text UserStatus.inactive = codes "inactive"
status_text UserStatus.suspended = codes "suspended"

-- What is recorded of a new account.
abbrev pub creation : User → Entry
creation u = record {
  user_id = some u.id;
  action = "user_created";
  resource_type = "user";
  resource_id = some u.id;
  ip_address = [];
  details = ("email", text u.email) ∷ ("department", text u.department) ∷ [];
}

-- What is recorded of an account that is closed, and of one that is reopened.
abbrev pub deactivation : ℕ → User → Entry
deactivation closed u = record {
  user_id = some u.id;
  action = "user_deactivated";
  resource_type = "user";
  resource_id = some u.id;
  ip_address = [];
  details = ("email", text u.email) ∷ ("tunnels_closed", number closed) ∷ [];
}

abbrev pub activation : User → Entry
activation u = record {
  user_id = some u.id;
  action = "user_activated";
  resource_type = "user";
  resource_id = some u.id;
  ip_address = [];
  details = ("email", text u.email) ∷ ("was", text (status_text u.status)) ∷ [];
}

module _ {env : Env} where
  unfoldable pub insert_user : ℕ → Text → CreateUserRequest → Exec env User
  insert_user now email req = do
    user ←
        insert (λ t. new_user email req t.users.next_id)
          (λ t. record t { users = add_row (new_user email req) t.users })
    log now (creation user)
    pure user

  -- CreateUser past its look at the addresses that are taken.
  abbrev pub store_user : ℕ → Text → CreateUserRequest → Option User → Exec env User
  store_user now email req (some u) = raise user_exists
  store_user now email req none = insert_user now email req

  unfoldable pub create_user : ℕ → CreateUserRequest → Exec env User
  create_user now req =
      let email = normalise_email req.email in
      if not (looks_like_email email) then raise invalid_email else do
        existing ← select (λ t. find (has_email email) t.users.rows)
        store_user now email req existing

  abbrev pub found_account : Option Account → Exec env Account
  found_account none = raise user_not_found
  found_account (some a) = pure a

  unfoldable pub get_user_by_email : Text → Exec env Account
  get_user_by_email email = do
    found ← select (account_of (normalise_email email))
    found_account found

  unfoldable pub is_authorised : Text → Exec env Account
  is_authorised email = do
    a ← get_user_by_email email
    if is_active a.user.status then pure a else raise user_inactive

  unfoldable pub deactivate_user : ℕ → Text → Exec env (Unit {0})
  deactivate_user now email = do
    a ← get_user_by_email email
    execute (update_user a.user.id (with_status UserStatus.inactive))
    log now (deactivation (killed env.disconnect a.user.email) a.user)

  unfoldable pub activate_user : ℕ → Text → Exec env (Unit {0})
  activate_user now email = do
    a ← get_user_by_email email
    if is_active a.user.status then pure tt else do
      execute (update_user a.user.id (with_status UserStatus.active))
      log now (activation a.user)

  -- ListUsers: the rows stand in the order of their identifiers.
  abbrev pub list_users : Exec env (List Account)
  list_users = select (λ t.
      map (λ u. record { user = u; groups = groups_of u.id t })
        (keep (λ (u : User). not u.deleted) t.users.rows))

  -- WHERE id = ?
  unfoldable pub record_login : ℕ → ℕ → Exec env (Unit {0})
  record_login now id = execute (update_user id (λ u. record u { last_login = some now }))
