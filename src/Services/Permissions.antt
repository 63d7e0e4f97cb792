-- ===== src/Services/Permissions.antt =====
-- internal/services/permission.go: what a group may reach, and so what a user may.
pub mod Access
pub mod Granting
use dvarpala.Base.{
  ℕ, ◌&&◌, ◌||◌, not, Bool, true, false, Text, codes, List, [], ◌∷◌, ◌++◌, Option, none, some, map,
  keep, find, any, trim_space, to_lower, text_eq, ◌==◌, if◌then◌else◌,
}
use mathlib.Core.List.{flat_map}
use dvarpala.Models.{
  User, Group, UserGroup, GroupPermission, PermissionType, Resource, Detail, text, read, write,
  admin, ssh, full,
}
use dvarpala.Platform.{
  Env, Exec, World, Error, invalid_permission, pure, raise, ◌>>=◌, ◌>>◌, select, execute,
}
use dvarpala.Platform.Database.{Table, Tables}
use dvarpala.Services.Audit.{Entry, log}
use dvarpala.Services.Users.{Account, get_user_by_email}
use dvarpala.Services.Groups.{get_group_by_name}
use dvarpala.Services.Resources.{get_resource_by_name}

-- validPermissionTypes
unfoldable pub permission_type : Text → Option PermissionType
permission_type s =
    if text_eq s (codes "read")
    then some read
    else if text_eq s (codes "write")
    then some write
    else if text_eq s (codes "admin")
    then some admin
    else if text_eq s (codes "ssh")
    then some ssh
    else if text_eq s (codes "full")
    then some full
    else none

abbrev pub permission_name : PermissionType → Text
permission_name read = codes "read"
permission_name write = codes "write"
permission_name admin = codes "admin"
permission_name ssh = codes "ssh"
permission_name full = codes "full"

abbrev pub rank : PermissionType → ℕ
rank read = 0
rank write = 1
rank admin = 2
rank ssh = 3
rank full = 4

-- The composite key of group_permissions.
abbrev pub is_permission : ℕ → ℕ → PermissionType → GroupPermission → Bool
is_permission group_id resource_id kind p =
    p.group_id == group_id && p.resource_id == resource_id && rank p.permission_type == rank kind

-- FirstOrCreate
abbrev pub add_permission : ℕ → ℕ → PermissionType → List GroupPermission → List GroupPermission
add_permission group_id resource_id kind ps =
    if any (is_permission group_id resource_id kind) ps
    then ps
    else ps
      ++ record { group_id = group_id; resource_id = resource_id; permission_type = kind } ∷ []

abbrev pub remove_permission : ℕ → ℕ → PermissionType → List GroupPermission → List GroupPermission
remove_permission group_id resource_id kind ps =
    keep (λ p. not (is_permission group_id resource_id kind p)) ps

pub record AccessGrant : Type 0 where
  pub resource : Resource
  pub permission : PermissionType
  pub via_group : Text

abbrev pub grant_of : Text → Resource → GroupPermission → AccessGrant
grant_of name r p = record { resource = r; permission = p.permission_type; via_group = name }

-- The rows of the join that belong to one resource and one group.
abbrev pub grants_at : Text → ℕ → Resource → List GroupPermission → List AccessGrant
grants_at name group_id r ps =
    map (grant_of name r)
      (keep (λ (p : GroupPermission). p.resource_id == r.id && p.group_id == group_id) ps)

abbrev pub live_resources : Tables → List Resource
live_resources t = keep (λ (r : Resource). not r.deleted) t.resources.rows

-- The query of ListForGroup, in the order of the resources.
unfoldable pub group_grants : Group → Tables → List AccessGrant
group_grants g t = flat_map (λ r. grants_at g.name g.id r t.permissions) (live_resources t)

-- The groups that join a link of the user.
abbrev pub linked_groups : UserGroup → Tables → List Group
linked_groups l t = keep (λ (g : Group). g.id == l.group_id && not g.deleted) t.groups.rows

abbrev pub links_of : ℕ → Tables → List UserGroup
links_of user_id t = keep (λ (l : UserGroup). l.user_id == user_id) t.user_groups

-- The query of ResourcesForUser, in the order of the resources.
unfoldable pub user_grants : ℕ → Tables → List AccessGrant
user_grants user_id t =
    flat_map
      (λ r.
        flat_map (λ l. flat_map (λ g. grants_at g.name g.id r t.permissions) (linked_groups l t))
          (links_of user_id t))
      (live_resources t)

-- What is recorded of a permission that is granted, and of one that is revoked.
abbrev pub granted_entry : Group → Resource → PermissionType → Entry
granted_entry group resource kind = record {
  user_id = none;
  action = "permission_granted";
  resource_type = "resource";
  resource_id = some resource.id;
  ip_address = [];
  details =
      ("group", text group.name)
      ∷ ("resource", text resource.name)
      ∷ ("permission", text (permission_name kind))
      ∷ [];
}

abbrev pub revoked_entry : Group → Resource → PermissionType → Entry
revoked_entry group resource kind = record {
  user_id = none;
  action = "permission_revoked";
  resource_type = "resource";
  resource_id = some resource.id;
  ip_address = [];
  details =
      ("group", text group.name)
      ∷ ("resource", text resource.name)
      ∷ ("permission", text (permission_name kind))
      ∷ [];
}

module _ {env : Env} where
  abbrev pub known_type : Option PermissionType → Exec env PermissionType
  known_type none = raise invalid_permission
  known_type (some k) = pure k

  unfoldable pub grant : ℕ → Text → Text → Text → Exec env (Unit {0})
  grant now group_name resource_name permission = do
    kind ← known_type (permission_type (to_lower (trim_space permission)))
    group ← get_group_by_name group_name
    resource ← get_resource_by_name resource_name
    execute (λ t. record t { permissions = add_permission group.id resource.id kind t.permissions })
    log now (granted_entry group resource kind)

  unfoldable pub revoke : ℕ → Text → Text → Text → Exec env (Unit {0})
  revoke now group_name resource_name permission = do
    kind ← known_type (permission_type (to_lower (trim_space permission)))
    group ← get_group_by_name group_name
    resource ← get_resource_by_name resource_name
    execute
        (λ t. record t { permissions = remove_permission group.id resource.id kind t.permissions })
    log now (revoked_entry group resource kind)

  unfoldable pub list_for_group : Text → Exec env (List AccessGrant)
  list_for_group group_name = do group ← get_group_by_name group_name; select (group_grants group)

  unfoldable pub resources_for_user : Text → Exec env (List AccessGrant)
  resources_for_user email = do a ← get_user_by_email email; select (user_grants a.user.id)
