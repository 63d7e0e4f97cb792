-- ===== src/Tests/Login.antt =====
-- Logins on the small deployment.
use dvarpala.Base.{
  ◌+◌, ◌≤◌, arith, ◌*◌, ◌≡◌, refl, after_last?, strip_prefix?, true, false, [], ◌∷◌, some, codes,
  text_eq, find, any, keep, trim_space, to_lower,
}
use dvarpala.Models.{Session, hour}
use dvarpala.Platform.{
  bad_state, no_break_glass, err, World, Result, ok, keys, pure, ◌>>=◌, catch, on_error, ignore,
  redis_set, redis_call, select, execute,
}
use dvarpala.Platform.Redis.{at, set}
use dvarpala.Services.Audit.{log}
use dvarpala.Services.Users.{
  Account, normalise_email, is_authorised, get_user_by_email, record_login,
}
use dvarpala.Services.Domains.{allowed, domain_listed, domain_of}
use dvarpala.Auth.Session.{effective_ttl, create, stamp}
use dvarpala.Auth.BreakGlass.{Grant, break_glass_default, issue, issue_to, session, redeem, get_del}
use dvarpala.Auth.Login.{
  new_login_attempt, Provider, Service, UserInfo, state_key, get_provider, consume_state,
  domain_allowed, admitted, admit, complete, login_session,
}
use dvarpala.Auth.Login.States.{attempt-consume_state}
use dvarpala.Auth.BreakGlass.Issuing.{issue_sound}
use dvarpala.Auth.BreakGlass.Redemption.{issue-redeem}
use dvarpala.Services.Users.Standing.{Authorised}
use dvarpala.Auth.Login.Safety.{StatePending, complete_sound}
use dvarpala.Tests.Local.{local, local-IsReliable, small_tables, start, no_keys, sam_ip, sam, staff}

abbrev sam_info : UserInfo
sam_info = record { email = codes "sam@acme.com"; name = codes "Sam"; provider = codes "dev" }

abbrev dev : Provider local
dev = record { name = codes "dev"; auth_url = λ s. s; exchange = λ now code. pure sam_info }

abbrev service : Service local
service = record {
  providers = dev ∷ [];
  session_ttl = 8 * hour;
  has_domains = true;
  allowed_domains = [];
  has_otp = false;
  has_break_glass = false;
}

-- A login was begun with the state "s1".
abbrev begun : World local
begun = record start { redis = set 0 (state_key (codes "s1")) (codes "dev|10.8.0.6") 900 no_keys }

abbrev outcome : Result Session × World local
outcome =
    complete service 100 (some (codes "t9")) (codes "dev") (codes "c") (codes "s1") sam_ip begun

abbrev expected : Session
expected =
    stamp (login_session (record { user = sam; groups = staff ∷ [] }) sam_info sam_ip) (codes "t9")
      100 (8 * hour)

completed : outcome ≡ (ok expected, outcome.1)
unfolding complete after_last? strip_prefix? on_error catch get_provider consume_state get_del
    redis_call ◌>>=◌ at state_key text_eq find any keep admit admitted domain_allowed allowed
    domain_listed domain_of is_authorised get_user_by_email normalise_email trim_space to_lower
    create redis_set select execute ignore record_login log
completed = refl

complete_sound_example : StatePending 100 (codes "s1") (codes "dev") (keys begun)
complete_sound_example =
    (complete_sound service 100 (some (codes "t9")) (codes "dev") (codes "c") (codes "s1") sam_ip
      expected begun outcome.1 completed).2

attempt-consume_state_example :
    (consume_state 60
      (codes "s2")
      (codes "dev")
      (consume_state 50
        (codes "s2")
        (codes "dev")
        (new_login_attempt 40 (some (codes "s2")) (codes "dev") sam_ip start).1).1).0
    ≡ err bad_state
attempt-consume_state_example =
    (attempt-consume_state local-IsReliable 40 50 60 (codes "s2") (codes "dev") (codes "dev") sam_ip
      start refl (omega arith)).2

abbrev pub sam_account : Account
sam_account = record { user = sam; groups = staff ∷ [] }

pub sam_Authorised : Authorised (codes "sam@acme.com") small_tables sam_account
unfolding normalise_email trim_space to_lower find any keep text_eq
sam_Authorised = (refl, refl)

abbrev issued : Result Grant × World local
issued =
    issue 10 (some (codes "t5")) (some (codes "c5")) (codes "sam@acme.com") sam_ip
      (codes "mail is down") 0 start

abbrev issued_grant : Grant
issued_grant = record {
  code = codes "c5";
  email = codes "sam@acme.com";
  groups = codes "staff" ∷ [];
  expires = 10 + break_glass_default;
}

issue-redeem_example :
    (redeem 30 (codes "c5") (redeem 20 (codes "c5") issued.1).1).0 ≡ err no_break_glass
issue-redeem_example =
    (issue-redeem local-IsReliable 10 20 30 (codes "t5") (codes "c5") (codes "sam@acme.com") sam_ip
      (codes "mail is down") 0 sam_account start refl refl refl refl sam_Authorised (omega arith)).2

is_issued : issued ≡ (ok issued_grant, issued.1)
unfolding issue issue_to session on_error catch is_authorised get_user_by_email normalise_email
    trim_space to_lower find any keep text_eq select create redis_set ◌>>=◌ log execute
    effective_ttl
is_issued = refl

issue_sound_example : issued_grant.expires ≤ 10 + 2 * hour
issue_sound_example =
    (issue_sound 10 (some (codes "t5")) (some (codes "c5")) (codes "sam@acme.com") sam_ip
      (codes "mail is down") 0 issued_grant start issued.1 is_issued).3
