-- ===== src/Services/Groups.antt =====
-- internal/services/group.go: groups and who is in them.
pub mod Membership
use dvarpala.Base.{
  ℕ, ◌&&◌, ◌||◌, not, Bool, true, false, Text, List, [], ◌∷◌, ◌++◌, Option, none, some, map, keep,
  find, any, is_empty, trim_space, text_eq, ◌==◌, if◌then◌else◌,
}
use dvarpala.Models.{User, Group, UserGroup, Detail, text}
use dvarpala.Platform.{
  Env, Exec, World, Error, group_not_found, group_exists, invalid_group, pure, raise, ◌>>=◌, ◌>>◌,
  select, execute, insert,
}
use dvarpala.Platform.Database.{Table, Tables, add_row}
use dvarpala.Services.Audit.{Entry, log}
use dvarpala.Services.Users.{Account, get_user_by_email}

pub record CreateGroupRequest : Type 0 where
  pub name : Text
  pub description : Text
  pub parent : Text

-- A group with its users.
pub record Roster : Type 0 where
  pub group : Group
  pub users : List User

abbrev pub users_of : ℕ → Tables → List User
users_of group_id t =
    keep
      (λ (u : User).
        any (λ (l : UserGroup). l.user_id == u.id && l.group_id == group_id) t.user_groups
        && not u.deleted)
      t.users.rows

abbrev pub live_with_name : Text → Group → Bool
live_with_name name g = text_eq g.name name && not g.deleted

abbrev pub new_group : Text → Text → Option ℕ → ℕ → Group
new_group name description parent_id id = record {
  id = id;
  name = name;
  description = description;
  parent_id = parent_id;
  deleted = false;
}

abbrev pub is_link : ℕ → ℕ → UserGroup → Bool
is_link user_id group_id l = l.user_id == user_id && l.group_id == group_id

-- Association.Append: a row of the join table, unless it is there.
abbrev pub add_link : ℕ → ℕ → List UserGroup → List UserGroup
add_link user_id group_id links =
    if any (is_link user_id group_id) links
    then links
    else links ++ record { user_id = user_id; group_id = group_id } ∷ []

-- Association.Delete
abbrev pub remove_link : ℕ → ℕ → List UserGroup → List UserGroup
remove_link user_id group_id links = keep (λ l. not (is_link user_id group_id l)) links

-- What is recorded of a user who joins a group, and of one who leaves it.
abbrev pub addition : User → Group → Entry
addition u g = record {
  user_id = some u.id;
  action = "user_added_to_group";
  resource_type = "group";
  resource_id = some g.id;
  ip_address = [];
  details = ("email", text u.email) ∷ ("group", text g.name) ∷ [];
}

abbrev pub removal : User → Group → Entry
removal u g = record {
  user_id = some u.id;
  action = "user_removed_from_group";
  resource_type = "group";
  resource_id = some g.id;
  ip_address = [];
  details = ("email", text u.email) ∷ ("group", text g.name) ∷ [];
}

module _ {env : Env} where
  abbrev pub found_group : Option Group → Exec env Group
  found_group none = raise group_not_found
  found_group (some g) = pure g

  -- ListGroups, each with the users that Preload fetches.
  abbrev pub list_groups : Exec env (List Roster)
  list_groups = select (λ t.
      map (λ (g : Group). record { group = g; users = users_of g.id t })
        (keep (λ (g : Group). not g.deleted) t.groups.rows))

  unfoldable pub get_group_by_name : Text → Exec env Group
  get_group_by_name name = do
    found ← select (λ t. find (live_with_name (trim_space name)) t.groups.rows)
    found_group found

  -- The parent by its name, where one is asked for.
  unfoldable pub parent_of : Text → Exec env (Option ℕ)
  parent_of name =
      if is_empty name then pure none else do parent ← get_group_by_name name; pure (some parent.id)

  unfoldable pub create_group : ℕ → CreateGroupRequest → Exec env Group
  create_group now req =
      let name = trim_space req.name in
      if is_empty name then raise invalid_group else do
        existing ← select (λ t. find (live_with_name name) t.groups.rows)
        elim existing [
          | some g ↦ raise group_exists
          | none ↦ do
            parent_id ← parent_of req.parent
            group ←
                insert (λ t. new_group name req.description parent_id t.groups.next_id)
                  (λ t. record t {
                    groups = add_row (new_group name req.description parent_id) t.groups;
                  })
            log now (record {
              user_id = none;
              action = "group_created";
              resource_type = "group";
              resource_id = some group.id;
              ip_address = [];
              details = ("name", text group.name) ∷ ("parent", text req.parent) ∷ [];
            })
            pure group
        ]

  unfoldable pub add_user_to_group : ℕ → Text → Text → Exec env (Unit {0})
  add_user_to_group now email name = do
    a ← get_user_by_email email
    group ← get_group_by_name name
    execute (λ t. record t { user_groups = add_link a.user.id group.id t.user_groups })
    log now (addition a.user group)

  unfoldable pub remove_user_from_group : ℕ → Text → Text → Exec env (Unit {0})
  remove_user_from_group now email name = do
    a ← get_user_by_email email
    group ← get_group_by_name name
    execute (λ t. record t { user_groups = remove_link a.user.id group.id t.user_groups })
    log now (removal a.user group)
