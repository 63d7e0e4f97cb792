-- ===== src/Web/Admin/Actions.antt =====
-- The actions of internal/web/admin.go, each a form that is posted.
use dvarpala.Base.{
  ℕ, ◌*◌, Text, codes, List, [], ◌∷◌, ◌++◌, is_empty, if◌then◌else◌, pos, parse_int,
}
use dvarpala.Models.{Session, VpnConfig, AllowedDomain, hour}
use dvarpala.Platform.{Env, Exec, Result, ok, err, Error, pure, ◌>>=◌, catch}
use dvarpala.Services.Users.{create_user, deactivate_user}
use dvarpala.Services.Groups.{create_group, add_user_to_group, remove_user_from_group}
use dvarpala.Services.Resources.{create_resource}
use dvarpala.Services.Permissions
use dvarpala.Services.Domains
use dvarpala.Services.VpnConfigs.{issue_config}
use dvarpala.Web.{Request}
use dvarpala.Web.Admin.{
  AdminSite, AdminReply, attachment, path_escape, back, require_admin, require_csrf,
}

-- The forms with their fields.
pub data Form : Type 0 where
  -- The address, the name and the department.
  creating_user : Text → Text → Text → Form
  deactivating_user : Text → Form
  -- The name, the description and the parent.
  creating_group : Text → Text → Text → Form
  -- The address and the group.
  assigning_group removing_group : Text → Text → Form
  -- The name, the type, the URL, the address, the port and the description.
  creating_resource : Text → Text → Text → Text → Text → Text → Form
  -- The group, the resource and the permission.
  granting revoking : Text → Text → Text → Form
  issuing_profile : Text → Form
  -- The domain and the note.
  adding_domain : Text → Text → Form
  removing_domain : Text → Form

-- The outcome of an operation as a value.
abbrev pub attempt : {env : Env} {A : Type 0} → Exec env A → Exec env (Result A)
attempt m = catch m (λ a. pure (ok a)) (λ e. pure (err e))

abbrev pub user_path : Text → Text
user_path email = codes "/admin/users/" ++ path_escape email

abbrev pub added_message : Result AllowedDomain → Text
added_message (ok d) = d.domain ++ codes " may now sign in"
added_message (err e) = []

abbrev pub warning : Result (List AllowedDomain) → Text
warning (ok []) = codes ". Warning: no domains remain, so ANY domain can now sign in."
warning (ok (d ∷ ds)) = []
warning (err e) = []

-- What a resource without an address is told about, where its creation succeeded.
abbrev pub no_address_note : {A : Type 0} → Text → Result A → Text
no_address_note ip (ok a) =
    if is_empty ip
    then codes ". Warning: no IP address, so no route or firewall entry will be created for it."
    else []
no_address_note ip (err e) = []

abbrev pub downloaded : (Error → Text) → Text → Result VpnConfig → AdminReply
downloaded error_text email (ok c) = attachment (email ++ codes ".ovpn") c.config_data
downloaded error_text email (err e) = back {A = VpnConfig} error_text (user_path email) [] (err e)

module _ {env : Env} (admin : AdminSite env) (now : ℕ) where
  abbrev pub reply : {A : Type 0} → Text → Text → Exec env A → Exec env AdminReply
  reply path message m = do r ← attempt m; pure (back admin.site.error_text path message r)

  -- The list is read again where the removal succeeded.
  abbrev pub after_removal : Text → Result (Unit {0}) → Exec env AdminReply
  after_removal domain (err e) =
      pure (back {A = Unit {0}} admin.site.error_text (codes "/admin/domains") [] (err e))
  after_removal domain (ok u) = do
    remaining ← attempt Domains.list
    pure (
        back {A = Unit {0}} admin.site.error_text (codes "/admin/domains")
          (domain ++ codes " can no longer sign in" ++ warning remaining) (ok u))

  unfoldable pub perform : Form → Session → Exec env AdminReply
  perform (creating_user email name department) sess =
      reply (codes "/admin/users")
        (codes "Added " ++ email ++ codes ". They reach nothing until you put them in a group.")
        (create_user now (record { email = email; full_name = name; department = department }))
  perform (deactivating_user email) sess =
      reply (codes "/admin/users")
        (codes "Deactivated "
          ++ email
          ++ codes ". An existing VPN session is not cut off until they reconnect.")
        (deactivate_user now email)
  perform (creating_group name description parent) sess =
      reply (codes "/admin/groups") (codes "Created group " ++ name)
        (create_group now (record { name = name; description = description; parent = parent }))
  perform (assigning_group email group) sess =
      reply (user_path email)
        (codes "Added to " ++ group ++ codes ". Takes effect when they next reconnect.")
        (add_user_to_group now email group)
  perform (removing_group email group) sess =
      reply (user_path email) (codes "Removed from " ++ group)
        (remove_user_from_group now email group)
  perform (creating_resource name kind url ip port description) sess = do
    r ← attempt (
        create_resource now (record {
          name = name;
          kind = kind;
          url = url;
          ip_address = ip;
          port = (parse_int port).0;
          description = description;
        }))
    pure (
        back admin.site.error_text (codes "/admin/resources")
          (codes "Registered " ++ name ++ no_address_note ip r) r)
  perform (granting group resource permission) sess =
      reply (codes "/admin/groups") (group ++ codes " may now reach " ++ resource)
        (Permissions.grant now group resource permission)
  perform (revoking group resource permission) sess =
      reply (codes "/admin/groups") (group ++ codes " can no longer reach " ++ resource)
        (Permissions.revoke now group resource permission)
  perform (issuing_profile email) sess = do
    r ← attempt (issue_config admin.configs now email (codes "console") (pos (365 * 24 * hour)))
    pure (downloaded admin.site.error_text email r)
  perform (adding_domain domain note) sess = do
    r ← attempt (Domains.add now domain sess.email note)
    pure (back admin.site.error_text (codes "/admin/domains") (added_message r) r)
  perform (removing_domain domain) sess = do
    r ← attempt (Domains.remove now domain sess.email)
    after_removal domain r

  -- A form that is posted, behind both checks.
  unfoldable pub post : Request → Text → Form → Exec env AdminReply
  post r csrf form = require_admin admin now r (require_csrf admin now r csrf (perform form))
