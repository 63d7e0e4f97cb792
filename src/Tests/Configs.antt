-- ===== src/Tests/Configs.antt =====
-- VPN configurations on the small deployment.
use dvarpala.Base.{
  ◌≡◌, refl, [], none, some, Text, codes, pos, arith, text_eq, trim_space, to_lower, find, any,
  keep,
}
use dvarpala.Models.{VpnConfig}
use dvarpala.Platform.{World, Result, ok, tables, ◌>>=◌, select, execute, insert}
use dvarpala.Services.Audit.{log}
use dvarpala.Services.Users.{normalise_email, get_user_by_email}
use dvarpala.Services.VpnConfigs.{
  VpnConfigService, ServerDetails, new_config, issue_by, revoke_configs, revoke_existing,
  revoke_each, store_config,
}
use dvarpala.Services.VpnConfigs.Single.{Single, issue_by-Single}
use dvarpala.Services.VpnConfigs.Outcome.{Issued, issue_by_sound, revoke_configs-none}
use dvarpala.Vpn.Authority.{Ca, ClientCredential, issue_client}
use dvarpala.Tests.Local.{local, local-IsReliable, start, small_tables}
use dvarpala.Tests.Login.{sam_account, sam_Authorised}

abbrev endpoint : ServerDetails
endpoint = record { host = codes "vpn.acme.com"; port = 0; proto = []; tls_crypt_k = [] }

abbrev pub no_authority : VpnConfigService
no_authority = record {
  ca = none;
  server = endpoint;
  format_date = λ t. [];
  format_rfc3339 = λ t. [];
}

abbrev authority : Ca
authority = record {
  certificate_pem = codes "CA";
  sign = λ t.
      some (record { certificate = t.common_name; private_key = codes "K"; serial = codes "1" });
}

abbrev sam_mail : Text
sam_mail = codes "sam@acme.com"

abbrev issued : Result VpnConfig × World local
issued = issue_by no_authority authority 10 sam_mail [] (pos 0) start

none_yet : Single small_tables
unfolding keep
none_yet user_id = ground arith

issue_by-Single_example : Single (tables issued.1)
issue_by-Single_example =
    issue_by-Single no_authority authority 10 sam_mail [] (pos 0) start none_yet

abbrev sam_cred : ClientCredential
sam_cred = record {
  common_name = sam_mail;
  certificate = sam_mail;
  private_key = codes "K";
  serial = codes "1";
  not_after = 31536000000000010;
}

abbrev sam_config : VpnConfig
sam_config = new_config no_authority authority 10 1 [] sam_cred 1

is_issued : issued ≡ (ok sam_config, issued.1)
unfolding issue_by get_user_by_email normalise_email trim_space to_lower find any keep text_eq
    select ◌>>=◌ execute insert log revoke_existing revoke_each store_config issue_client
is_issued = refl

issue_by_sound_example :
    Issued no_authority authority 10 sam_mail [] (pos 0) start sam_config issued.1
issue_by_sound_example =
    issue_by_sound no_authority authority 10 sam_mail [] (pos 0) start issued.1 is_issued

revoke_configs-none_example : (revoke_configs 20 sam_mail start).0 ≡ ok tt
revoke_configs-none_example =
    (revoke_configs-none local-IsReliable 20 sam_mail sam_account start sam_Authorised.0).0
