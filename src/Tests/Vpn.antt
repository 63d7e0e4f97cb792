-- ===== src/Tests/Vpn.antt =====
-- Tunnels and routes on small inputs.
use dvarpala.Base.{ℕ, ◌*◌, ◌≡◌, true, false, List, [], ◌∷◌, none, Text, codes, keep}
use dvarpala.Models.{second, PermissionType}
use dvarpala.Services.Permissions.{AccessGrant}
use dvarpala.Vpn.Idle.{ConnectedClient, IdleSweeper, sweep_clients}
use dvarpala.Vpn.Idle.Sweeping.{sweep_clients_lem}
use dvarpala.Vpn.Access.{to_routes}
use dvarpala.Vpn.Access.Routes.{Distinct, to_routes_lem}
use dvarpala.Tests.Local.{wiki}

abbrev minutes_15 : IdleSweeper
minutes_15 = record { after = 900 * second; every = 150 * second }

abbrev client : Text → ℕ → ℕ → ConnectedClient
client ip since id = record {
  common_name = codes "sam";
  virtual_address = ip;
  connected_since = since;
  client_id = id;
}

-- Of three clients the first has no address yet, and the second is new.
abbrev clients : List ConnectedClient
clients =
    client [] 0 1 ∷ client (codes "10.8.0.2") (500 * second) 2 ∷ client (codes "10.8.0.3") 0 3 ∷ []

sweep_clients_lem_example :
    (sweep_clients minutes_15 (1000 * second) (λ ip. false) (λ id. true) clients).kills ≡ 3 ∷ []
unfolding keep
sweep_clients_lem_example =
    (sweep_clients_lem minutes_15 (1000 * second) (λ ip. false) (λ id. true) clients).0

-- Two grants of one network.
abbrev grants : List AccessGrant
grants =
    record { resource = wiki; permission = PermissionType.read; via_group = codes "staff" }
    ∷ record { resource = wiki; permission = PermissionType.write; via_group = codes "eng" }
    ∷ []

to_routes_lem_example : Distinct [] (to_routes (λ a. none) grants)
to_routes_lem_example = (to_routes_lem (λ a. none) grants).0
