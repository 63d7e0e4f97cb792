-- ===== src/Services/Permissions/Access.antt =====
-- What a user may reach, read off the tables.
use dvarpala.Base.{
  ℕ, ◌≡◌, ◌↔◌, ◌&&◌, not, true, ◌==◌, Any, iff_trans, Any-cong, Any-map, Any-keep, Any-flat_map,
}
use mathlib.Core.List.{flat_map}
use dvarpala.Models.{Group, UserGroup, GroupPermission, Resource}
use dvarpala.Platform.Database.{Tables}
use dvarpala.Services.Permissions.{
  AccessGrant, grant_of, grants_at, linked_groups, links_of, live_resources, user_grants,
}

-- A permission of a group on a resource, seen as a grant.
abbrev pub Permitted : Tables → Resource → Group → AccessGrant → Type 0
Permitted t r grp g =
    Any
      (λ (p : GroupPermission).
        ((p.resource_id == r.id && p.group_id == grp.id) ≡ true)
        × (g ≡ record { resource = r; permission = p.permission_type; via_group = grp.name }))
      t.permissions

-- The grant is of a live resource, by a permission of a live group that the user is in.
abbrev pub Entitled : ℕ → Tables → AccessGrant → Type 0
Entitled user_id t g =
    Any
      (λ (r : Resource).
        (not r.deleted ≡ true)
        × Any
            (λ (l : UserGroup).
              ((l.user_id == user_id) ≡ true)
              × Any
                  (λ (grp : Group).
                    ((grp.id == l.group_id && not grp.deleted) ≡ true) × Permitted t r grp g)
                  t.groups.rows)
            t.user_groups)
      t.resources.rows

and-cong : {A : Type 0} {P Q : Type 0} → (P ↔ Q) → (A × P) ↔ (A × Q)
and-cong (f, g) = (λ h. (h.0, f h.1), λ h. (h.0, g h.1))

module _ (t : Tables) (g : AccessGrant) where
  grants_at_iff :
      (r : Resource) (grp : Group)
      → Any (λ x. g ≡ x) (grants_at grp.name grp.id r t.permissions) ↔ Permitted t r grp g
  grants_at_iff r grp = iff_trans (Any-map (grant_of grp.name r) _) (Any-keep _ t.permissions)

  linked_iff :
      (r : Resource) (l : UserGroup)
      → Any
          (λ x. g ≡ x)
          (flat_map
            (λ (grp : Group). grants_at grp.name grp.id r t.permissions)
            (linked_groups l t))
        ↔ Any
            (λ (grp : Group).
              ((grp.id == l.group_id && not grp.deleted) ≡ true) × Permitted t r grp g)
            t.groups.rows
  linked_iff r l = iff_trans (Any-flat_map _ (linked_groups l t)) (
      iff_trans (Any-keep _ t.groups.rows)
        (Any-cong (λ grp. and-cong (grants_at_iff r grp)) t.groups.rows))

  -- The query for a user's resources returns a grant exactly if the tables entitle the user to it: a
  -- live resource, a live group that the user is in, and a permission of that group on it, whose
  -- kind and group the grant names.
  pub user_grants_iff :
      (user_id : ℕ) → Any (λ x. g ≡ x) (user_grants user_id t) ↔ Entitled user_id t g
  unfolding user_grants
  user_grants_iff user_id = iff_trans (Any-flat_map _ (live_resources t)) (
      iff_trans (Any-keep _ t.resources.rows) (
        Any-cong
          (λ r. and-cong (
            iff_trans (Any-flat_map _ (links_of user_id t)) (
              iff_trans (Any-keep _ t.user_groups)
                (Any-cong (λ l. and-cong (linked_iff r l)) t.user_groups))))
          t.resources.rows))
