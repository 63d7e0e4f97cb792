-- ===== src/Tests/Local.antt =====
-- A deployment with its servers in memory, which take every command, and some accounts.
use dvarpala.Base.{pos, ◌≡◌, refl, true, false, [], ◌∷◌, none, Text, codes}
use dvarpala.Models.{User, UserStatus, Group, Resource, ResourceType, PermissionType, Session}
use dvarpala.Platform.{Backend, Env, World, IsReliable}
use dvarpala.Platform.Redis.{Keyspace}
use dvarpala.Platform.Database.{Tables, empty_tables}
use dvarpala.Tests.LocalCodec.{marshal, unmarshal, unmarshal-marshal}

pub view_update_down : {V : Type 0} → (f : V → V) (s : V) → true ≡ false → f s ≡ s
view_update_down f s h = cc

abbrev pub in_memory : (V : Type 0) → Backend V
in_memory V = record {
  State = V;
  view = λ s. s;
  up = λ s. true;
  query = λ s. s;
  update = λ f s. f s;
  view-query = λ s. refl;
  view-update = λ f s _. refl;
  view-update_down = view_update_down;
}

abbrev pub local : Env
local = record {
  redis = in_memory Keyspace;
  database = in_memory Tables;
  marshal = marshal;
  unmarshal = unmarshal;
  unmarshal-marshal = unmarshal-marshal;
  send_code = λ to code. true;
  split_ipv6 = λ a. none;
  disconnect = none;
}

pub local-IsReliable : IsReliable local
local-IsReliable = record { redis_up = λ s. refl; database_up = λ s. refl }

abbrev pub sam : User
sam = record {
  id = 1;
  email = codes "sam@acme.com";
  full_name = codes "Sam";
  department = [];
  status = UserStatus.active;
  last_login = none;
  deleted = false;
}

abbrev pub staff : Group
staff = record { id = 1; name = codes "staff"; description = []; parent_id = none; deleted = false }

abbrev pub wiki : Resource
wiki = record {
  id = 1;
  name = codes "wiki";
  kind = ResourceType.service;
  url = [];
  ip_address = codes "10.20.1.5/24";
  port = pos 0;
  description = [];
  deleted = false;
}

abbrev pub small_tables : Tables
small_tables = record empty_tables {
  users = record { rows = sam ∷ []; next_id = 2 };
  groups = record { rows = staff ∷ []; next_id = 2 };
  resources = record { rows = wiki ∷ []; next_id = 2 };
  domains = record {
    rows = record { id = 1; domain = codes "acme.com"; added_by = []; note = [] } ∷ [];
    next_id = 2;
  };
  user_groups = record { user_id = 1; group_id = 1 } ∷ [];
  permissions =
      record { group_id = 1; resource_id = 1; permission_type = PermissionType.read } ∷ [];
}

abbrev pub no_keys : Keyspace
no_keys k = none

-- Sam has an account, and nobody is signed in.
abbrev pub start : World local
start = record { redis = no_keys; database = small_tables }

abbrev pub sam_ip : Text
sam_ip = codes "10.8.0.6"

abbrev pub sam_session : Session
sam_session = record {
  token = codes "t0";
  user_id = 1;
  email = codes "sam@acme.com";
  provider = codes "otp";
  groups = codes "staff" ∷ [];
  client_ip = sam_ip;
  issued_at = 1000;
  expires = 9000000000000;
}
