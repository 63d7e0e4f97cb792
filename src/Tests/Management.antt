-- ===== src/Tests/Management.antt =====
-- The control channel with an OpenVPN that knows two clients.
use dvarpala.Base.{ℕ, ◌≡◌, ◌++◌, not, false, List, [], ◌∷◌, none, some, Text, codes, All, keep, pos}
use dvarpala.Vpn.Management.{
  OpenVpn, ConnectedClient, collect, kill, is_verdict, is_notice, trim_cr,
}
use dvarpala.Vpn.Management.Commands.{OneLine, collect_notices, commands-OneLine}

abbrev vpn : OpenVpn
vpn history cmd =
    some (record { lines = codes ">INFO: hello" ∷ codes "SUCCESS: done" ∷ []; failed = false })

abbrev two : List ConnectedClient
two = client (codes "sam") 1 ∷ client (codes "ann") 2 ∷ []
  where
    client : Text → ℕ → ConnectedClient
    client name id = record {
      common_name = name;
      real_address = [];
      virtual_address = [];
      bytes_received = pos 0;
      bytes_sent = pos 0;
      connected_since = none;
      client_id = pos id;
    }

collect_notices_example :
    collect is_verdict false (codes ">INFO: hello" ∷ codes "SUCCESS: done" ∷ [])
    ≡ collect is_verdict false (
        keep (λ l. not (is_notice (trim_cr l))) (codes ">INFO: hello" ∷ codes "SUCCESS: done" ∷ []))
collect_notices_example =
    collect_notices is_verdict false (codes ">INFO: hello" ∷ codes "SUCCESS: done" ∷ [])

-- A name that would smuggle in a second command.
commands-OneLine_example :
    All OneLine (kill vpn (codes "sam" ++ (10 ∷ codes "signal SIGTERM")) []).1
commands-OneLine_example =
    (commands-OneLine vpn (codes "sam" ++ (10 ∷ codes "signal SIGTERM")) (codes "HALT") (pos 7) []
      tt).0
