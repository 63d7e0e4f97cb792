-- ===== src/Vpn/Access.antt =====
-- internal/api/vpnapi/vpn.go: what OpenVPN's hooks ask: may this client have access, and to what.
pub mod Routes
pub mod Checks
pub mod Decision
pub mod Outcome
use dvarpala.Base.{
  ℕ, ◌&&◌, ◌||◌, not, Bool, true, false, List, [], ◌∷◌, ◌++◌, Option, none, some, Text, codes,
  String, is_empty, trim_space, text_eq, equal_fold, any, length, if◌then◌else◌, map,
}
use dvarpala.Models.{Session, Resource, Detail, text, texts, number}
use dvarpala.Platform.{
  Env, World, Exec, Result, ok, err, Error, pure, raise, ◌>>=◌, ◌>>◌, catch, ignore,
}
use dvarpala.Net.{split_cidr}
use dvarpala.Services.Audit.{Entry, log}
use dvarpala.Services.Users.{Account, is_authorised}
use dvarpala.Services.Permissions.{AccessGrant, permission_name, resources_for_user}
use dvarpala.Auth.Session.{get_by_client_ip, is_no_session}
use dvarpala.Auth.Login.{client_disconnected, client_reconnected}

pub record Route : Type 0 where
  pub network : Text
  pub netmask : Text
  pub resource : Text
  pub permission : Text
  pub via_group : Text

pub record AccessResponse : Type 0 where
  pub authenticated : Bool
  pub email : Text
  pub groups : List Text
  pub routes : List Route

-- The HTTP status and the body.
pub data Reply : Type 0 where
  okay : AccessResponse → Reply
  internal_error : AccessResponse → Reply

abbrev pub refused : AccessResponse
refused = record { authenticated = false; email = []; groups = []; routes = [] }

-- sameIdentity: an absent name is accepted.
unfoldable pub same_identity : Text → Text → Bool
same_identity common_name email =
    let name = trim_space common_name in is_empty name || equal_fold name (trim_space email)

abbrev pub route_key : Text × Text → Text
route_key (network, netmask) = network ++ (47 ∷ netmask)

abbrev pub route_of : AccessGrant → Text × Text → Route
route_of g (network, netmask) = record {
  network = network;
  netmask = netmask;
  resource = g.resource.name;
  permission = permission_name g.permission;
  via_group = g.via_group;
}

-- The network that a grant opens, if it has an address that can be routed.
abbrev pub routed_to : (Text → Option (Text × Text)) → AccessGrant → Option (Text × Text)
routed_to split_ipv6 g =
    let ip = trim_space g.resource.ip_address in
    if is_empty ip then none else split_cidr split_ipv6 ip

-- The loop of toRoutes, with the keys seen.
unfoldable pub routes_from :
    (Text → Option (Text × Text)) → List Text → List AccessGrant → List Route
routes_from split_ipv6 seen [] = []
routes_from split_ipv6 seen (g ∷ gs) = elim (routed_to split_ipv6 g) [
  | none ↦ routes_from split_ipv6 seen gs
  | some net ↦
      if any (text_eq (route_key net)) seen
      then routes_from split_ipv6 seen gs
      else route_of g net ∷ routes_from split_ipv6 (route_key net ∷ seen) gs
]

unfoldable pub to_routes : (Text → Option (Text × Text)) → List AccessGrant → List Route
unfolding routes_from
to_routes split_ipv6 gs = routes_from split_ipv6 [] gs

-- grantedResources: each name once, in the order of the grants.
unfoldable pub names_from : List Text → List AccessGrant → List Text
names_from seen [] = []
names_from seen (g ∷ gs) =
    let rest =
      names_from (if any (text_eq g.resource.name) seen then seen else g.resource.name ∷ seen) gs in
    if any (text_eq g.resource.name) seen then rest else g.resource.name ∷ rest

abbrev pub granted_resources : List AccessGrant → List Text
granted_resources gs = names_from [] gs

abbrev pub vpn_entry : Option ℕ → String → Text → List (String × Detail) → Entry
vpn_entry user_id action client_ip details = record {
  user_id = user_id;
  action = action;
  resource_type = "vpn_session";
  resource_id = none;
  ip_address = client_ip;
  details = details;
}

abbrev pub leaver : Text → Option Session → Entry
leaver client_ip none = vpn_entry none "vpn_disconnected" client_ip []
leaver client_ip (some sess) =
    vpn_entry (some sess.user_id) "vpn_disconnected" client_ip (("email", text sess.email) ∷ [])

-- The answer that opens routes.
abbrev pub granted : Session → List Route → AccessResponse
granted sess routes = record {
  authenticated = true;
  email = sess.email;
  groups = sess.groups;
  routes = routes;
}

-- What is recorded of a tunnel that is let on, of one whose certificate is another's, and of one
-- whose account is closed.
abbrev pub granted_entry : Text → Session → List Route → List AccessGrant → Entry
granted_entry client_ip sess routes grants =
    vpn_entry (some sess.user_id) "vpn_access_granted" client_ip (
      ("email", text sess.email)
      ∷ ("groups", texts sess.groups)
      ∷ ("routes", number (length routes))
      ∷ ("resources", texts (granted_resources grants))
      ∷ [])

abbrev pub mismatch_entry : Text → Text → Session → Entry
mismatch_entry client_ip common_name sess =
    vpn_entry (some sess.user_id) "vpn_access_denied" client_ip (
      ("reason", text (codes "certificate does not match the session at this address"))
      ∷ ("session_for", text sess.email)
      ∷ ("connected_as", text common_name)
      ∷ [])

abbrev pub closed_entry : Text → Session → Entry
closed_entry client_ip sess =
    vpn_entry (some sess.user_id) "vpn_access_denied" client_ip (("email", text sess.email) ∷ [])

module _ {env : Env} where
  abbrev pub report : ℕ → Entry → Reply → Exec env Reply
  report now e reply = log now e >> pure reply

  abbrev pub opened : ℕ → Text → Session → List AccessGrant → Exec env Reply
  opened now client_ip sess grants =
      let routes = to_routes env.split_ipv6 grants in
      report now (granted_entry client_ip sess routes grants) (okay (granted sess routes))

  -- Access past its checks.
  unfoldable pub open_routes : ℕ → Text → Session → Exec env Reply
  open_routes now client_ip sess = do
    ignore (client_reconnected now client_ip)
    catch (resources_for_user sess.email) (λ grants. opened now client_ip sess grants)
        (λ e. pure (internal_error refused))

  -- Access of a client at whose address a session is.
  unfoldable pub check_session : ℕ → Text → Text → Session → Exec env Reply
  check_session now client_ip common_name sess =
      if not (same_identity common_name sess.email)
      then report now (mismatch_entry client_ip common_name sess) (okay refused)
      else catch (is_authorised sess.email) (λ a. open_routes now client_ip sess)
          (λ e. report now (closed_entry client_ip sess) (okay refused))

  unfoldable pub access : ℕ → Text → Text → Exec env Reply
  access now client_ip common_name =
      catch (get_by_client_ip now client_ip) (λ sess. check_session now client_ip common_name sess)
        (λ e. if is_no_session e then pure (okay refused) else pure (internal_error refused))

  -- The session is read before it is shortened, so that the record names who left.
  unfoldable pub disconnect : ℕ → Text → Exec env (Unit {0})
  disconnect now client_ip = do
    sess ← catch (get_by_client_ip now client_ip) (λ s. pure (some s)) (λ e. pure none)
    client_disconnected now client_ip
    log now (leaver client_ip sess)
