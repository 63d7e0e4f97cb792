-- ===== src/Tests/Access.antt =====
-- Grants, memberships and the connect hook on the small deployment.
use dvarpala.Base.{
  ◌≡◌, ◌↔◌, refl, [], none, some, codes, arith, text_eq, trim_space, to_lower, find, Any,
}
use dvarpala.Models.{PermissionType}
use dvarpala.Platform.{ok, ◌>>=◌, redis_get, select, execute}
use dvarpala.Platform.Redis.{at}
use dvarpala.Net.{show_ipv4, split_cidr}
use dvarpala.Net.Cidr.{split_cidr_dotted}
use dvarpala.Services.Users.{account_of, normalise_email, deactivate_user, get_user_by_email}
use dvarpala.Services.Audit.{log}
use dvarpala.Services.Groups.{add_user_to_group}
use dvarpala.Services.Groups.Membership.{group_of, add_user_to_group-remove_user_from_group}
use dvarpala.Services.Permissions.{AccessGrant, grant, user_grants, permission_type}
use dvarpala.Services.Permissions.Access.{Entitled, user_grants_iff}
use dvarpala.Services.Permissions.Granting.{resource_of, kind_of, grant-revoke}
use dvarpala.Auth.Session.{fetch, get_by_client_ip, auth_key, session_key}
use dvarpala.Vpn.Access.{okay, refused, granted, same_identity, to_routes, access}
use dvarpala.Vpn.Access.Checks.{Decided}
use dvarpala.Vpn.Access.Decision.{access-Decided}
use dvarpala.Vpn.Access.Outcome.{access-granted, deactivate_user-access}
use dvarpala.Tests.LocalCodec.{marshal, unmarshal, put, put_all, cut, cut_all}
use dvarpala.Tests.Local.{
  local, local-IsReliable, start, staff, wiki, small_tables, sam_ip, sam_session,
}
use dvarpala.Tests.Login.{sam_account, sam_Authorised}
use dvarpala.Tests.Auth.{signed_in, sam_reads}

sam_known : account_of (normalise_email (codes "sam@acme.com")) small_tables ≡ some sam_account
sam_known = sam_Authorised.0

staff_known : group_of (codes "staff") small_tables ≡ some staff
unfolding find text_eq trim_space
staff_known = refl

wiki_known : resource_of (codes "wiki") small_tables ≡ some wiki
unfolding find text_eq trim_space
wiki_known = refl

write_known : kind_of (codes " Write") ≡ some PermissionType.write
unfolding permission_type text_eq trim_space to_lower
write_known = refl

add_user_to_group-remove_user_from_group_example :
    (add_user_to_group 5 (codes "sam@acme.com") (codes "staff") start).0 ≡ ok tt
add_user_to_group-remove_user_from_group_example =
    (add_user_to_group-remove_user_from_group local-IsReliable 5 6 (codes "sam@acme.com")
      (codes "staff") sam_account staff start sam_known staff_known).0

grant-revoke_example : (grant 5 (codes "staff") (codes "wiki") (codes " Write") start).0 ≡ ok tt
grant-revoke_example =
    (grant-revoke local-IsReliable (codes "staff") (codes "wiki") (codes " Write")
      PermissionType.write staff wiki write_known 5 6 start staff_known wiki_known).0

-- Sam's one grant, from the rows.
abbrev sam_grant : AccessGrant
sam_grant = record { resource = wiki; permission = PermissionType.read; via_group = codes "staff" }

user_grants_iff_example :
    Any (λ x. sam_grant ≡ x) (user_grants 1 small_tables) ↔ Entitled 1 small_tables sam_grant
user_grants_iff_example = user_grants_iff small_tables sam_grant 1

access-granted_example :
    (access 2000 sam_ip (codes "sam@acme.com") signed_in).0
    ≡ ok (okay (granted sam_session (to_routes local.split_ipv6 (user_grants 1 small_tables))))
unfolding same_identity text_eq trim_space to_lower
access-granted_example =
    access-granted local-IsReliable 2000 sam_ip (codes "sam@acme.com") sam_session sam_account
      signed_in sam_reads refl sam_Authorised

access-Decided_example :
    Decided 2000 sam_ip
      (codes "sam@acme.com")
      signed_in
      (access 2000 sam_ip (codes "sam@acme.com") signed_in).0
access-Decided_example = access-Decided 2000 sam_ip (codes "sam@acme.com") signed_in

-- Sam's account is closed, and the session is still in Redis.
still_reads :
    (get_by_client_ip 3000 sam_ip (deactivate_user 2000 (codes "sam@acme.com") signed_in).1).0
    ≡ ok sam_session
unfolding deactivate_user fetch ◌>>=◌ redis_get at auth_key session_key text_eq marshal unmarshal
    put put_all cut cut_all get_user_by_email select find normalise_email to_lower trim_space
    execute log
still_reads = refl

deactivate_user-access_example :
    (access 3000 sam_ip [] (deactivate_user 2000 (codes "sam@acme.com") signed_in).1).0
    ≡ ok (okay refused)
deactivate_user-access_example =
    deactivate_user-access local-IsReliable 2000 3000 (codes "sam@acme.com") sam_ip [] sam_session
      sam_account signed_in sam_known still_reads refl

-- 10.20.1.5
split_cidr_dotted_example :
    split_cidr (λ a. none) (show_ipv4 169083141) ≡ some (show_ipv4 169083141, show_ipv4 4294967295)
split_cidr_dotted_example =
    (split_cidr_dotted (λ a. none) 169083141 (omega arith) 24 (omega arith)).0
