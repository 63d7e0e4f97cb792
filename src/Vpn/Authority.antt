-- ===== src/Vpn/Authority.antt =====
-- internal/vpn/pki.go: certificates for users and for the VPN server. Drawing keys and serial
-- numbers, signing and PEM are a parameter.
use dvarpala.Base.{
  ℕ, zero, suc, ◌+◌, ◌-◌, ◌*◌, Bool, true, Text, List, [], ◌∷◌, Option, none, some, is_empty,
  if◌then◌else◌, ℤ, pos, negsuc,
}
use dvarpala.Models.{minute, hour}
use dvarpala.Platform.{Result, ok, err, issue_failed}
use dvarpala.Net.{parse_ipv4}

pub data ExtKeyUsage : Type 0 where
  client_auth server_auth : ExtKeyUsage

-- The fields of x509.Certificate that the program fills in.
pub record Template : Type 0 where
  pub common_name : Text
  pub not_before : ℕ
  pub not_after : ℕ
  pub ext_key_usage : ExtKeyUsage
  pub ip_addresses : List Text
  pub dns_names : List Text

-- A signed certificate and its key, both PEM, and the serial number drawn for it.
pub record Signed : Type 0 where
  pub certificate : Text
  pub private_key : Text
  pub serial : Text

-- The authority: its own certificate, and what signing gives, none where it or a draw of random
-- bytes fails.
pub record Ca : Type 0 where
  pub certificate_pem : Text
  pub sign : Template → Option Signed

pub record ClientCredential : Type 0 where
  pub common_name : Text
  pub certificate : Text
  pub private_key : Text
  pub serial : Text
  pub not_after : ℕ

-- now.Add of a validity, or of a default where it is not positive.
abbrev pub expiry : ℕ → ℕ → ℤ → ℕ
expiry now default (negsuc n) = now + default
expiry now default (pos zero) = now + default
expiry now default (pos (suc n)) = now + suc n

abbrev pub credential : Template → Option Signed → Result ClientCredential
credential t none = err issue_failed
credential t (some s) = ok (record {
  common_name = t.common_name;
  certificate = s.certificate;
  private_key = s.private_key;
  serial = s.serial;
  not_after = t.not_after;
})

abbrev pub client_template : ℕ → Text → ℤ → Template
client_template now common_name validity = record {
  common_name = common_name;
  not_before = now - 5 * minute;
  not_after = expiry now (365 * 24 * hour) validity;
  ext_key_usage = client_auth;
  ip_addresses = [];
  dns_names = [];
}

unfoldable pub issue_client : Ca → ℕ → Text → ℤ → Result ClientCredential
issue_client ca now common_name validity =
    let t = client_template now common_name validity in
    if is_empty common_name then err issue_failed else credential t (ca.sign t)

-- net.ParseIP; which texts with a colon are IPv6 addresses is a parameter.
abbrev pub is_address : (Text → Bool) → Text → Bool
is_address parses_ipv6 h = elim (parse_ipv4 h) [ some ip ↦ true | none ↦ parses_ipv6 h ]

-- The loop over the hosts: addresses and names apart, empty names left out.
unfoldable pub add_hosts : (Text → Bool) → List Text → Template → Template
add_hosts parses_ipv6 [] t = t
add_hosts parses_ipv6 (h ∷ hs) t =
    let rest = add_hosts parses_ipv6 hs t in
    if is_address parses_ipv6 h
    then record rest { ip_addresses = h ∷ rest.ip_addresses }
    else if is_empty h
    then rest
    else record rest { dns_names = h ∷ rest.dns_names }

abbrev pub server_template : ℕ → Text → ℤ → Template
server_template now common_name validity = record {
  common_name = common_name;
  not_before = now - 5 * minute;
  not_after = expiry now (5 * 365 * 24 * hour) validity;
  ext_key_usage = server_auth;
  ip_addresses = [];
  dns_names = [];
}

unfoldable pub issue_server :
    (Text → Bool) → Ca → ℕ → Text → List Text → ℤ → Result ClientCredential
issue_server parses_ipv6 ca now common_name hosts validity =
    let t = add_hosts parses_ipv6 hosts (server_template now common_name validity) in
    if is_empty common_name then err issue_failed else credential t (ca.sign t)
