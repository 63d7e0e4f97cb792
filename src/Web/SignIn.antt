-- ===== src/Web/SignIn.antt =====
-- The three requests of signing in with a code, on servers that answer: internal/web/otp.go and
-- internal/web/auth.go over internal/auth/service.go.
pub mod Access
use dvarpala.Base.{
  ℕ, ◌+◌, ◌≤◌, ◌<◌, ◌≡◌, refl, sym, ap, ◌∙◌, subst, true, false, not, Option, none, some, Text,
  codes, [], ◌++◌, find, find_sound, is_empty, has_prefix, text_eq, text_eq→eq, text_eq_refl,
  trim_space, if◌then◌else◌, to_lower-trim_space_twice, arith,
}
use dvarpala.Models.{Session, User, UserStatus}
use dvarpala.Platform.{Env, World, IsReliable, Result, ok, err, raise, pure, keys, tables}
use dvarpala.Platform.Redis.{Keyspace, get, get_number, ttl, set, del, at}
use dvarpala.Platform.Database.{Tables}
use dvarpala.Platform.Runs.{Runs, outcome, pure-Runs, catch-Runs, Runs-else}
use dvarpala.Services.Audit.{Entry, append_log}
use dvarpala.Services.Users.{
  Account, account_of, account_in, groups_of, normalise_email, live_with_email, update_user,
}
use dvarpala.Services.Users.Standing.{
  Authorised, account_of-email, account_of-update_by, account_of-same,
}
use dvarpala.Services.Domains.{domain_of}
use dvarpala.Services.Permissions.{user_grants}
use dvarpala.Auth.Session.{store_session, auth_key, get_by_client_ip}
use dvarpala.Auth.Session.Pairing.{session_at, store_session-auth_key}
use dvarpala.Auth.Session.Absence.{fetch-present}
use dvarpala.Auth.Otp
use dvarpala.Auth.Otp.{
  otp_verified_key, otp_cooldown_key, otp_daily_key, otp_daily_limit, otp_ttl, verified_ttl,
  counted, canonical, generate_code,
}
use dvarpala.Auth.Otp.Running.{verify-Runs}
use dvarpala.Auth.Login.{
  code_sent, in_list, login_entry, state_ttl, state_key, Provider, Service, state_prefix,
  new_login_attempt, request_code, verify_code, complete, otp_provider,
}
use dvarpala.Auth.Login.Running.{admits, listed, new_login_attempt-Runs, request_code-Runs}
use dvarpala.Auth.Login.Completing.{session_of, code_info, logged_in, complete-Runs}
use dvarpala.Auth.Login.Trail.{
  attempted, mailed, proved, ttl-attempted, get_number-attempted, get-mailed, state-proved,
  verified-proved,
}
use dvarpala.Auth.Login.States.{has_prefix-append}
use dvarpala.Vpn.Access.{okay, granted, same_identity, to_routes, access}
use dvarpala.Vpn.Access.Outcome.{access-granted}
use dvarpala.Web.{Site, Request, Step, plain, redirect}
use dvarpala.Web.Codes
use dvarpala.Web.Codes.{page, callback_url, start, send}
use dvarpala.Web.Portal.{callback, welcome}

-- What a person needs to sign in with a code, of the settings, the tables and Redis.
pub record MaySignIn {env : Env} (s : Service env) (now n : ℕ) (address : Text) (a : Account)
    (K : Keyspace) (T : Tables) : Type 0 where
  pub offers :
      find (λ (p : Provider env). text_eq p.name (codes "otp")) s.providers ≡ some otp_provider
  pub has_otp : s.has_otp ≡ true
  pub domain : admits s (canonical address) T ≡ true
  pub account : Authorised (canonical address) T a
  pub cool : ttl now (otp_cooldown_key (canonical address)) K ≡ 0
  pub few : counted (get_number now (otp_daily_key (canonical address)) K) < otp_daily_limit
  pub mailed : env.send_code (canonical address) (generate_code n) ≡ true

module _ {env : Env} (up : IsReliable env) (site : Site env) (r : Request) where
  pub start-Runs :
      (now n : ℕ) (state address : Text) (a : Account) (K : Keyspace) (T : Tables)
      → MaySignIn site.service now n address a K T
      → Runs
          (start site now r (some state) (some n) address)
          K
          T
          (ok (page Step.code state address []))
          (mailed now state
            (state_prefix (codes "otp") ++ r.client_ip)
            K
            (canonical address)
            (generate_code n))
          (append_log now (code_sent (canonical address) r.client_ip) T)
  unfolding start send
  start-Runs now n state address a K T may =
      let value = state_prefix (codes "otp") ++ r.client_ip in
      let email = canonical address in
      catch-Runs (new_login_attempt now (some state) (codes "otp") r.client_ip) _ _
        (new_login_attempt-Runs up now state (codes "otp") r.client_ip)
        (catch-Runs (request_code site.service now (some n) address r.client_ip) _ _
          (request_code-Runs up site.service now n address r.client_ip a may.has_otp may.domain
            may.account (ttl-attempted now state value K email ∙ may.cool)
            (subst (λ x. counted x < otp_daily_limit)
              (sym (get_number-attempted now state value K email)) may.few)
            may.mailed)
          (pure-Runs (page Step.code state address [])))

  pub checked-Runs :
      (now : ℕ) (address code state : Text) (K : Keyspace) (T : Tables)
      → site.service.has_otp ≡ true
      → get now (Otp.otp_key (canonical address)) K ≡ some (trim_space code)
      → Runs
          (Codes.verify site now r address code state)
          K
          T
          (ok (plain (redirect (callback_url state))))
          (set now
            (otp_verified_key state)
            (canonical address)
            verified_ttl
            (Otp.drop_code (canonical address) K))
          T
  unfolding Codes.verify verify_code
  checked-Runs now address code state K T offered held =
      catch-Runs (verify_code site.service now address code state) _ _
        (Runs-else _ _ (raise _) (ap not offered) (verify-Runs up now address code state held))
        (pure-Runs (plain (redirect (callback_url state))))

  pub welcomed-Runs :
      (now : ℕ) (tok state value email : Text) (a : Account) (K : Keyspace) (T : Tables)
      → find (λ (p : Provider env). text_eq p.name (codes "otp")) site.service.providers
        ≡ some otp_provider
      → is_empty state ≡ false
      → get now (state_key state) K ≡ some value
      → has_prefix (state_prefix (codes "otp")) value ≡ true
      → get now (otp_verified_key state) (del (state_key state) K) ≡ some email
      → admits site.service email T ≡ true
      → Authorised email T a
      → let sess = session_of a (code_info email) r.client_ip tok now site.service.session_ttl in
        Runs
          (callback site now r (some tok) (codes "otp") state state)
          K
          T
          (ok (welcome site now r sess))
          (store_session now site.service.session_ttl sess
            (env.marshal sess)
            (del (otp_verified_key state) (del (state_key state) K)))
          (append_log now
            (login_entry a (code_info email) r.client_ip)
            (update_user a.user.id (logged_in now) T))
  unfolding callback
  welcomed-Runs now tok state value email a K T offers ne held pre proved inside who =
      let sess = session_of a (code_info email) r.client_ip tok now site.service.session_ttl in
      catch-Runs (complete site.service now (some tok) (codes "otp") state state r.client_ip) _ _
        (complete-Runs up site.service now tok state r.client_ip value email a offers ne held pre
          proved inside who)
        (pure-Runs (welcome site now r sess))
