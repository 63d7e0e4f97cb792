-- ===== src/Services/Permissions/Granting.antt =====
-- How granting and revoking change the permissions.
use dvarpala.Base.{
  ℕ, ◌≡◌, sym, ap, ◌∙◌, not, true, false, Option, none, some, Text, List, find, any, keep,
  trim_space, to_lower, arith, any-keep-not, any-add_once, keep-not-add_once, add_once-add_once,
}
use dvarpala.Models.{Group, Resource, PermissionType, GroupPermission}
use dvarpala.Platform.{
  Env, World, IsReliable, ok, err, resource_not_found, ◌>>=◌, select, execute, tables,
}
use dvarpala.Platform.Database.{Tables}
use dvarpala.Services.Audit.{append_log}
use dvarpala.Services.Audit.Writing.{log-ok, log-tables}
use dvarpala.Services.Groups.{get_group_by_name}
use dvarpala.Services.Groups.Membership.{group_of, get_group_by_name-eq}
use dvarpala.Services.Resources.{live_with_name, get_resource_by_name}
use dvarpala.Services.Permissions.{
  permission_type, is_permission, add_permission, remove_permission, grant, revoke, granted_entry,
  revoked_entry,
}

-- The live resource of a name, and the kind that a text names.
abbrev pub resource_of : Text → Tables → Option Resource
resource_of name t = find (live_with_name (trim_space name)) t.resources.rows

abbrev pub kind_of : Text → Option PermissionType
kind_of permission = permission_type (to_lower (trim_space permission))

abbrev with_permissions : List GroupPermission → Tables → Tables
with_permissions ps t = record t { permissions = ps }

module _ {env : Env} (up : IsReliable env) where
  get_resource_by_name-eq :
      (name : Text) (w : World env)
      → let (r, u) = get_resource_by_name name w in
        (r ≡ elim (resource_of name (tables w)) [ none ↦ err resource_not_found | some x ↦ ok x ])
        × (tables u ≡ tables w)
  unfolding get_resource_by_name ◌>>=◌ select
  get_resource_by_name-eq name w =
      let same = env.database.view-query w.database in ground (arith, up.database_up w.database)

  module _ (group_name resource_name permission : Text) (kind : PermissionType) (g : Group)
      (r : Resource) (known : kind_of permission ≡ some kind) where
    grant-tables :
        (now : ℕ) (w : World env)
        → group_of group_name (tables w) ≡ some g
        → resource_of resource_name (tables w) ≡ some r
        → let (x, w') = grant now group_name resource_name permission w in
          let ps = (tables w).permissions in
          (x ≡ ok tt)
          × (tables w'
              ≡ append_log now
                  (granted_entry g r kind)
                  (with_permissions (add_permission g.id r.id kind ps) (tables w)))
    unfolding grant ◌>>=◌ execute
    grant-tables now w h k =
        let (a, t) = get_group_by_name-eq up group_name w in
        let v = (get_group_by_name group_name w).1 in
        let (a', t') = get_resource_by_name-eq resource_name v in
        let x = (get_resource_by_name resource_name v).1 in
        let f =
          λ (t : Tables). record t { permissions = add_permission g.id r.id kind t.permissions } in
        let wrote = env.database.view-update f x.database (up.database_up x.database) in
        let u = (execute f x).1 in
        let e = granted_entry g r kind in
        rw (known, grant)
          (ground (arith, up.database_up x.database, log-ok now e u, log-tables up now e u))

    revoke-tables :
        (now : ℕ) (w : World env)
        → group_of group_name (tables w) ≡ some g
        → resource_of resource_name (tables w) ≡ some r
        → let (x, w') = revoke now group_name resource_name permission w in
          let ps = (tables w).permissions in
          (x ≡ ok tt)
          × (tables w'
              ≡ append_log now
                  (revoked_entry g r kind)
                  (with_permissions (remove_permission g.id r.id kind ps) (tables w)))
    unfolding revoke ◌>>=◌ execute
    revoke-tables now w h k =
        let (a, t) = get_group_by_name-eq up group_name w in
        let v = (get_group_by_name group_name w).1 in
        let (a', t') = get_resource_by_name-eq resource_name v in
        let x = (get_resource_by_name resource_name v).1 in
        let f = λ (t : Tables). record t {
          permissions = remove_permission g.id r.id kind t.permissions;
        } in
        let wrote = env.database.view-update f x.database (up.database_up x.database) in
        let u = (execute f x).1 in
        let e = revoked_entry g r kind in
        rw (known, revoke)
          (ground (arith, up.database_up x.database, log-ok now e u, log-tables up now e u))

    -- On servers that answer, for a live group and a live resource: granting a known kind of
    -- permission puts it in force and changes no other; granting it again changes nothing;
    -- revoking it takes just it away.
    pub grant-revoke :
        (now later : ℕ) (w : World env)
        → group_of group_name (tables w) ≡ some g
        → resource_of resource_name (tables w) ≡ some r
        → let (x, given) = grant now group_name resource_name permission w in
          let (x', again) = grant later group_name resource_name permission given in
          let (x'', revoked) = revoke later group_name resource_name permission given in
          let is_it = is_permission g.id r.id kind in
          (x ≡ ok tt)
          × (any is_it (tables given).permissions ≡ true)
          × (keep (λ p. not (is_it p)) (tables given).permissions
              ≡ keep (λ p. not (is_it p)) (tables w).permissions)
          × (x' ≡ ok tt)
          × ((tables again).permissions ≡ (tables given).permissions)
          × (x'' ≡ ok tt)
          × (any is_it (tables revoked).permissions ≡ false)
          × ((tables revoked).permissions ≡ keep (λ p. not (is_it p)) (tables w).permissions)
    grant-revoke now later w h k =
        let is_it = is_permission g.id r.id kind in
        let row : GroupPermission = record {
          group_id = g.id;
          resource_id = r.id;
          permission_type = kind;
        } in
        let self : is_it row ≡ true = ground arith in
        let ps = (tables w).permissions in
        let given = (grant now group_name resource_name permission w).1 in
        let (x, t) = grant-tables now w h k in
        let h' : group_of group_name (tables given) ≡ some g = ap (group_of group_name) t ∙ h in
        let k' : resource_of resource_name (tables given) ≡ some r =
          ap (resource_of resource_name) t ∙ k in
        let (x', t') = grant-tables later given h' k' in
        let (x'', t'') = revoke-tables later given h' k' in
        let in_force = ap (λ (y : Tables). y.permissions) t in
        let gone =
          ap (λ (y : Tables). y.permissions) t'' ∙ ap (remove_permission g.id r.id kind) in_force in
        (
          x,
          ap (any is_it) in_force ∙ any-add_once is_it row ps self,
          ap (keep (λ p. not (is_it p))) in_force ∙ keep-not-add_once is_it row ps self,
          x',
          ap (λ (y : Tables). y.permissions) t'
              ∙ ap (add_permission g.id r.id kind) in_force
              ∙ add_once-add_once is_it row ps self
              ∙ sym in_force,
          x'',
          ap (any is_it) gone ∙ any-keep-not is_it (add_permission g.id r.id kind ps),
          gone ∙ keep-not-add_once is_it row ps self,
        )
