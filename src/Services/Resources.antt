-- ===== src/Services/Resources.antt =====
-- internal/services/resource.go: the protected things, and the address each is reached at.
pub mod Creation
use dvarpala.Base.{
  ℕ, ℤ, ◌&&◌, not, Bool, true, false, Text, codes, List, [], ◌∷◌, Option, none, some, keep, find,
  is_empty, trim_space, to_lower, text_eq, if◌then◌else◌,
}
use dvarpala.Models.{Resource, ResourceType, text, dashboard, vm, database, service}
use dvarpala.Net.{split_cidr}
use dvarpala.Platform.{
  Env, Exec, resource_not_found, resource_exists, invalid_resource, pure, raise, ◌>>=◌, ◌>>◌,
  select, insert,
}
use dvarpala.Platform.Database.{add_row}
use dvarpala.Services.Audit.{Entry, log}

pub record CreateResourceRequest : Type 0 where
  pub name : Text
  pub kind : Text
  pub url : Text
  pub ip_address : Text
  pub port : ℤ
  pub description : Text

-- validResourceTypes
unfoldable pub resource_type : Text → Option ResourceType
resource_type s =
    if text_eq s (codes "dashboard")
    then some dashboard
    else if text_eq s (codes "vm")
    then some vm
    else if text_eq s (codes "database")
    then some database
    else if text_eq s (codes "service")
    then some service
    else none

abbrev pub type_name : ResourceType → Text
type_name dashboard = codes "dashboard"
type_name vm = codes "vm"
type_name database = codes "database"
type_name service = codes "service"

abbrev pub needs_address : ResourceType → Bool
needs_address vm = true
needs_address database = true
needs_address _ = false

abbrev pub is_some {ℓ} : {A : Type ℓ} → Option A → Bool
is_some none = false
is_some (some a) = true

abbrev pub live_with_name : Text → Resource → Bool
live_with_name name r = text_eq r.name name && not r.deleted

abbrev pub new_resource : Text → ResourceType → Text → CreateResourceRequest → ℕ → Resource
new_resource name kind ip req id = record {
  id = id;
  name = name;
  kind = kind;
  url = req.url;
  ip_address = ip;
  port = req.port;
  description = req.description;
  deleted = false;
}

-- What is recorded of a new resource.
abbrev pub creation : Resource → Entry
creation r = record {
  user_id = none;
  action = "resource_created";
  resource_type = "resource";
  resource_id = some r.id;
  ip_address = [];
  details =
      ("name", text r.name)
      ∷ ("type", text (type_name r.kind))
      ∷ ("ip", text r.ip_address)
      ∷ ("url", text r.url)
      ∷ [];
}

module _ {env : Env} where
  unfoldable pub insert_resource :
      ℕ → Text → ResourceType → Text → CreateResourceRequest → Exec env Resource
  insert_resource now name kind ip req = do
    resource ←
        insert (λ t. new_resource name kind ip req t.resources.next_id)
          (λ t. record t { resources = add_row (new_resource name kind ip req) t.resources })
    log now (creation resource)
    pure resource

  -- CreateResource past its look at the names that are taken.
  abbrev pub store_resource :
      ℕ → Text → ResourceType → Text → CreateResourceRequest → Option Resource → Exec env Resource
  store_resource now name kind ip req (some r) = raise resource_exists
  store_resource now name kind ip req none = insert_resource now name kind ip req

  unfoldable pub name_resource : ℕ → ResourceType → CreateResourceRequest → Exec env Resource
  name_resource now kind req =
      let name = trim_space req.name in
      do
        existing ← select (λ t. find (live_with_name name) t.resources.rows)
        store_resource now name kind (trim_space req.ip_address) req existing

  -- The checks of the address, which has to route; that there is one is asked before it is trimmed.
  unfoldable pub address_resource :
      ℕ → CreateResourceRequest → Option ResourceType → Exec env Resource
  address_resource now req none = raise invalid_resource
  address_resource now req (some kind) =
      let ip = trim_space req.ip_address in
      if needs_address kind && is_empty req.ip_address
      then raise invalid_resource
      else if not (is_empty ip) && not (is_some (split_cidr env.split_ipv6 ip))
      then raise invalid_resource
      else name_resource now kind req

  unfoldable pub create_resource : ℕ → CreateResourceRequest → Exec env Resource
  create_resource now req =
      if is_empty (trim_space req.name)
      then raise invalid_resource
      else address_resource now req (resource_type (to_lower (trim_space req.kind)))

  abbrev pub found_resource : Option Resource → Exec env Resource
  found_resource none = raise resource_not_found
  found_resource (some r) = pure r

  unfoldable pub get_resource_by_name : Text → Exec env Resource
  get_resource_by_name name = do
    found ← select (λ t. find (live_with_name (trim_space name)) t.resources.rows)
    found_resource found

  unfoldable pub list_resources : Exec env (List Resource)
  list_resources = select (λ t. keep (λ (r : Resource). not r.deleted) t.resources.rows)
