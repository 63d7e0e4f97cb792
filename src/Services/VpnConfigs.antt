-- ===== src/Services/VpnConfigs.antt =====
-- internal/services/vpnconfig.go: the VPN credential of each user. The layouts of time.Format are
-- parameters.
pub mod Revoking
pub mod Single
pub mod Contents
pub mod Outcome
use dvarpala.Base.{
  ℕ, ◌+◌, ◌&&◌, not, Bool, true, false, String, Text, codes, List, [], ◌∷◌, ◌++◌, Option, none,
  some, map, keep, is_empty, text_eq, ◌==◌, if◌then◌else◌, ℤ, pos, show_int,
}
use mathlib.Core.List.{reverse}
use dvarpala.Models.{VpnConfig, VpnConfigStatus, User, Detail, text}
use dvarpala.Platform.{
  Env, Exec, World, Result, ok, err, Error, no_ca, pure, raise, lift, ◌>>=◌, ◌>>◌, select, execute,
  insert,
}
use dvarpala.Platform.Database.{Table, Tables, add_row}
use dvarpala.Services.Audit.{Entry, log}
use dvarpala.Services.Users.{Account, get_user_by_email}
use dvarpala.Vpn.Authority.{Ca, ClientCredential, issue_client, issue_server}

-- A port of 0 is none; ports are not negative.
pub record ServerDetails : Type 0 where
  pub host : Text
  pub port : ℕ
  pub proto : Text
  pub tls_crypt_k : Text

-- VPNConfigService, with the formats "2006-01-02" and RFC 3339.
pub record VpnConfigService : Type 0 where
  pub ca : Option Ca
  pub server : ServerDetails
  pub format_date : ℕ → Text
  pub format_rfc3339 : ℕ → Text

abbrev pub is_active : VpnConfigStatus → Bool
is_active VpnConfigStatus.active = true
is_active _ = false

-- WHERE user_id = ? AND status = 'active', on the rows that are not deleted.
abbrev pub active_for : ℕ → VpnConfig → Bool
active_for user_id c = c.user_id == user_id && is_active c.status && not c.deleted

abbrev pub revoke_config : ℕ → VpnConfig → VpnConfig
revoke_config id c =
    if c.id == id && not c.deleted then record c { status = VpnConfigStatus.revoked } else c

abbrev pub with_configs : (List VpnConfig → List VpnConfig) → Tables → Tables
with_configs f t = record t { configs = record (t.configs) { rows = f t.configs.rows } }

abbrev pub revocation : ℕ → Text → VpnConfig → Entry
revocation user_id reason c = record {
  user_id = some user_id;
  action = "vpn_config_revoked";
  resource_type = "vpn_config";
  resource_id = some c.id;
  ip_address = [];
  details = ("reason", text reason) ∷ [];
}

-- The lines of a profile that are the same for everyone.
abbrev pub fixed_lines : Text
fixed_lines =
    codes "resolv-retry infinite\nnobind\npersist-key\npersist-tun\nremote-cert-tls server\n"
    ++ codes "cipher AES-256-GCM\nverb 3\n\n"
    ++ codes "# Ask the server to tell us when we disconnect, so access is revoked promptly\n"
    ++ codes "# rather than after a keepalive timeout.\nexplicit-exit-notify 1\n\n"

abbrev pub or_default : Text → Text → Text
or_default default s = if is_empty s then default else s

abbrev pub element : Text → Text → Text
element name body = codes "<" ++ name ++ codes ">\n" ++ body ++ (codes "</" ++ name ++ codes ">\n")

abbrev pub crypt_element : Text → Text
crypt_element key = if is_empty key then [] else codes "\n" ++ element (codes "tls-crypt") key

-- buildProfile up to its certificates.
abbrev pub profile_head : VpnConfigService → ℕ → ClientCredential → Text
profile_head s now cred =
    let port = if s.server.port == 0 then 1194 else s.server.port in
    codes "# Dvarpala VPN profile for "
    ++ cred.common_name
    ++ codes "\n# Issued "
    ++ s.format_date now
    ++ codes ", expires "
    ++ s.format_date cred.not_after
    ++ codes "\n\nclient\ndev tun\nproto "
    ++ or_default (codes "udp") s.server.proto
    ++ codes "\nremote "
    ++ s.server.host
    ++ codes " "
    ++ show_int (pos port)
    ++ codes "\n"
    ++ fixed_lines

-- buildProfile, of a service that has a certificate authority.
unfoldable pub build_profile : VpnConfigService → Ca → ℕ → ClientCredential → Text
build_profile s ca now cred =
    profile_head s now cred
    ++ element (codes "ca") ca.certificate_pem
    ++ codes "\n"
    ++ element (codes "cert") cred.certificate
    ++ codes "\n"
    ++ element (codes "key") cred.private_key
    ++ crypt_element s.server.tls_crypt_k

abbrev pub new_config : VpnConfigService → Ca → ℕ → ℕ → Text → ClientCredential → ℕ → VpnConfig
new_config s ca now user_id config_name cred id = record {
  id = id;
  user_id = user_id;
  config_name = or_default (codes "default") config_name;
  client_cert = cred.certificate;
  client_key = cred.private_key;
  ca_cert = ca.certificate_pem;
  config_data = build_profile s ca now cred;
  status = VpnConfigStatus.active;
  expires_at = some cred.not_after;
  deleted = false;
}

abbrev pub issuance : VpnConfigService → User → ClientCredential → VpnConfig → Entry
issuance s user cred c = record {
  user_id = some user.id;
  action = "vpn_config_issued";
  resource_type = "vpn_config";
  resource_id = some c.id;
  ip_address = [];
  details =
      ("email", text user.email)
      ∷ ("common_name", text cred.common_name)
      ∷ ("serial", text cred.serial)
      ∷ ("expires", text (s.format_rfc3339 cred.not_after))
      ∷ [];
}

module _ {env : Env} where
  -- The loop of revokeExisting, over the configurations that were found.
  unfoldable pub revoke_each : ℕ → ℕ → Text → List VpnConfig → Exec env (Unit {0})
  revoke_each now user_id reason [] = pure tt
  revoke_each now user_id reason (c ∷ cs) = do
    execute (with_configs (map (revoke_config c.id)))
    log now (revocation user_id reason c)
    revoke_each now user_id reason cs

  unfoldable pub revoke_existing : ℕ → ℕ → Text → Exec env (Unit {0})
  revoke_existing now user_id reason = do
    active ← select (λ t. keep (active_for user_id) t.configs.rows)
    revoke_each now user_id reason active

  unfoldable pub store_config :
      VpnConfigService → Ca → ℕ → User → Text → ClientCredential → Exec env VpnConfig
  store_config s ca now user config_name cred = do
    config ←
        insert (λ t. new_config s ca now user.id config_name cred t.configs.next_id)
          (λ t. record t {
            configs = add_row (new_config s ca now user.id config_name cred) t.configs;
          })
    log now (issuance s user cred config)
    pure config

  -- Issue past its look for a certificate authority.
  unfoldable pub issue_by : VpnConfigService → Ca → ℕ → Text → Text → ℤ → Exec env VpnConfig
  issue_by s ca now email config_name validity = do
    a ← get_user_by_email email
    revoke_existing now a.user.id (codes "superseded by a new certificate")
    cred ← lift (issue_client ca now a.user.email validity)
    store_config s ca now a.user config_name cred

  abbrev pub issue_config : VpnConfigService → ℕ → Text → Text → ℤ → Exec env VpnConfig
  issue_config s now email config_name validity = elim s.ca [
    | none ↦ raise no_ca
    | some ca ↦ issue_by s ca now email config_name validity
  ]

  unfoldable pub list_for_user : Text → Exec env (List VpnConfig)
  list_for_user email = do
    a ← get_user_by_email email
    select (λ t. keep (λ c. c.user_id == a.user.id && not c.deleted) (reverse t.configs.rows))

  abbrev pub list_all : Exec env (List VpnConfig)
  list_all = select (λ t. keep (λ c. not c.deleted) (reverse t.configs.rows))

  unfoldable pub revoke_configs : ℕ → Text → Exec env (Unit {0})
  revoke_configs now email = do
    a ← get_user_by_email email
    revoke_existing now a.user.id (codes "revoked by an administrator")

-- The hosts of a server certificate: the host asked for, that of the profiles, and this machine.
abbrev pub server_hosts : Text → Text → List Text
server_hosts host own =
    let local = codes "127.0.0.1" ∷ codes "localhost" ∷ [] in
    if not (is_empty own) && not (text_eq own host) then host ∷ own ∷ local else host ∷ local

unfoldable pub issue_server_cert :
    (Text → Bool) → VpnConfigService → ℕ → Text → Text → ℤ → Result ClientCredential
issue_server_cert parses_ipv6 s now common_name host validity = elim s.ca [
  | none ↦ err no_ca
  | some ca ↦ issue_server parses_ipv6 ca now common_name (server_hosts host s.server.host) validity
]
