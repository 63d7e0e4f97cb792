-- ===== src/Tests/Web.antt =====
-- The portal and the console on the small deployment.
use dvarpala.Base.{
  ◌*◌, ◌≡◌, ◌⊎◌, refl, arith, true, false, [], ◌∷◌, none, some, Text, codes, text_eq, find, any,
  keep, trim_space, to_lower, after_last?,
}
use dvarpala.Models.{Session, hour}
use dvarpala.Platform.{World, ok, keys}
use dvarpala.Platform.Redis.{at}
use dvarpala.Services.Users.{normalise_email}
use dvarpala.Services.Domains.{domain_of}
use dvarpala.Auth.Session.Reachable.{
  PairedWorld, Operation, creating, Reach, nobody, step, perform, Reach-Paired,
}
use dvarpala.Auth.Otp.{generate_code}
use dvarpala.Auth.Login.{Service, otp_provider}
use dvarpala.Web.{Site, Request, session_for}
use dvarpala.Web.Codes.{page, callback_url, start}
use dvarpala.Web.Escaping.{Field, failure_url-Field}
use dvarpala.Web.Portal.{failure_url, sign_out, callback}
use dvarpala.Web.Codes
use dvarpala.Services.Permissions.{user_grants}
use dvarpala.Auth.Session.Shortening.{Paired-later}
use dvarpala.Auth.Login.Completing.{session_of, code_info}
use dvarpala.Vpn.Access.{okay, granted, same_identity, to_routes, access}
use dvarpala.Tests.Configs.{no_authority}
use dvarpala.Web.SignIn.{MaySignIn}
use dvarpala.Web.SignIn.Access.{sign_in-access}
use dvarpala.Web.SignOut.{sign_out-session_for}
use dvarpala.Web.Admin.{AdminSite}
use dvarpala.Web.Admin.Actions.{Form, deactivating_user, post}
use dvarpala.Web.Admin.Guards.{Carried, Untouched, post-Carried}
use dvarpala.Net.{split_at}
use dvarpala.Tests.Local.{
  local, local-IsReliable, small_tables, start as world, no_keys, sam_ip, sam_session,
}
use dvarpala.Tests.Login.{sam_account}

abbrev code_service : Service local
code_service = record {
  providers = otp_provider ∷ [];
  session_ttl = 8 * hour;
  has_domains = true;
  allowed_domains = [];
  has_otp = true;
  has_break_glass = false;
}

abbrev site : Site local
site = record {
  service = code_service;
  secure_cookies = true;
  error_text = λ e. codes "no";
  format_time = λ t. [];
  format_rfc3339 = λ t. [];
}

abbrev sam_mail : Text
sam_mail = codes "sam@acme.com"

abbrev browser : Request
browser = record { cookie = none; client_ip = sam_ip }

sam_may : MaySignIn code_service 1000 42 sam_mail sam_account no_keys small_tables
unfolding find otp_provider text_eq trim_space to_lower after_last? domain_of keep normalise_email
    at any
sam_may = record {
  offers = refl;
  has_otp = refl;
  domain = refl;
  account = (refl, refl);
  cool = refl;
  few = omega arith;
  mailed = refl;
}

-- Sam asks for a code, types it, is signed in and connects.
abbrev asked : World local
asked = (start site 1000 browser (some (codes "s1")) (some 42) sam_mail world).1

abbrev typed : World local
typed = (Codes.verify site 2000 browser sam_mail (codes " 000042 ") (codes "s1") asked).1

abbrev welcomed : World local
welcomed =
    (callback site 3000 browser (some (codes "t7")) (codes "otp") (codes "s1") (codes "s1") typed).1

abbrev sam_signed_in : Session
sam_signed_in = session_of sam_account (code_info sam_mail) sam_ip (codes "t7") 3000 (8 * hour)

sign_in-access_example :
    (access 4000 sam_ip sam_mail welcomed).0
    ≡ ok (okay (granted sam_signed_in (to_routes local.split_ipv6 (user_grants 1 small_tables))))
unfolding same_identity text_eq trim_space to_lower generate_code
sign_in-access_example =
    (sign_in-access local-IsReliable site browser 1000 2000 3000 4000 42 (codes "s1") (codes "t7")
      sam_mail (codes " 000042 ") sam_mail sam_account world sam_may refl refl refl (omega arith)
      (omega arith) (omega arith) (omega arith) refl).3

-- Nobody is signed in, then Sam is.
nobody_yet : Reach 0 world
nobody_yet = nobody world (λ ip. refl)

abbrev signing_in : Operation
signing_in = creating (8 * hour) (some (codes "t7")) sam_session

sam_reached : Reach 1000 (perform 1000 signing_in world)
sam_reached = step signing_in nobody_yet (ground arith) (λ tok e. refl)

Reach-Paired_example : PairedWorld 1000 (perform 1000 signing_in world)
Reach-Paired_example = Reach-Paired 1000 (perform 1000 signing_in world) sam_reached

abbrev with_cookie : Request
with_cookie = record { cookie = some (codes "t7"); client_ip = sam_ip }

sign_out-session_for_example :
    (session_for 3000 with_cookie
      (sign_out site 2000 with_cookie (perform 1000 signing_in world)).1).0
    ≡ ok none
sign_out-session_for_example =
    sign_out-session_for local-IsReliable site 2000 3000 with_cookie (perform 1000 signing_in world)
      (Paired-later local.unmarshal 1000 2000 (keys (perform 1000 signing_in world)) (omega arith)
        (Reach-Paired 1000 (perform 1000 signing_in world) sam_reached))
      (omega arith)

abbrev console : AdminSite local
console = record {
  site = site;
  configs = no_authority;
  csrf_hash = λ s. s;
  details_json = λ d. [];
  format_minute = λ t. [];
}

abbrev closing : Form
closing = deactivating_user sam_mail

post-Carried_example :
    ((sess : Session) × Carried console 2000 with_cookie (codes "x") closing world sess)
    ⊎ Untouched world (post console 2000 with_cookie (codes "x") closing world).1
post-Carried_example = post-Carried console 2000 with_cookie (codes "x") closing world

abbrev odd_provider : Text
odd_provider = codes "a&reason=b%"

failure_url-Field_example :
    (a : Text) × (b : Text) × (c : Text) × (split_at b'&'
        (failure_url odd_provider (codes "X") (codes "no, really"))
      ≡ a ∷ b ∷ c ∷ [])
    × Field (codes "/auth/error?code=") (codes "X") a
    × Field (codes "reason=") (codes "no, really") b
    × Field (codes "provider=") odd_provider c
failure_url-Field_example =
    failure_url-Field odd_provider (codes "X") (codes "no, really") (ground arith) (ground arith)
      (ground arith)
