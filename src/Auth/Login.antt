-- ===== src/Auth/Login.antt =====
-- internal/auth/service.go: the login flow. A service is its providers and its settings.
-- The tunnel restart that Complete starts in the background, after its result, is not modelled.
mod Terms
pub mod Safety
pub mod States
pub mod Running
pub mod Completing
pub mod Keys
pub mod Trail
unfoldable pub use Terms.*
use dvarpala.Base.{
  query_escape, ℕ, ◌*◌, ◌++◌, Bool, true, false, not, any, find, Option, none, some, List, [], ◌∷◌,
  Text, codes, String, text_eq, is_empty, to_lower, trim_space, has_prefix, after_last?, map, keep,
  if◌then◌else◌,
}
use dvarpala.Models.{Session, Detail, text, texts, minute}
use dvarpala.Platform.{
  Env, World, Exec, Result, ok, err, Error, bad_state, domain_blocked, unknown_provider,
  code_disabled, no_break_glass, no_session, pure, raise, ◌>>=◌, ◌>>◌, catch, on_error, ignore,
  redis_get, redis_set,
}
use dvarpala.Platform.Redis.{Keyspace, get, set}
use dvarpala.Services.Audit.{Entry, log}
use dvarpala.Services.Users.{Account, is_authorised, record_login}
use dvarpala.Services.Domains
use dvarpala.Auth.Session.{
  create, get_session, get_by_client_ip, is_no_session, new_token, revoke, revoke_by_client_ip,
  disconnected, reconnected,
}
use dvarpala.Auth.Otp
use dvarpala.Auth.BreakGlass.{group_names, entry, get_del, redeem}

module _ {env : Env} where
  abbrev pub log_failed : ℕ → Text → Text → Text → Exec env (Unit {0})
  log_failed now provider client_ip stage = log now (
      entry none "authentication_failed" client_ip
        (("provider", text provider) ∷ ("stage", text stage) ∷ []))

  abbrev pub log_denied : ℕ → Text → Text → Text → Exec env (Unit {0})
  log_denied now email client_ip reason = log now (
      entry none "authentication_denied" client_ip
        (("email", text email) ∷ ("reason", text reason) ∷ []))

  -- Registry.Get
  abbrev pub known : Option (Provider env) → Exec env (Provider env)
  known none = raise unknown_provider
  known (some p) = pure p

  unfoldable pub get_provider : Service env → Text → Exec env (Provider env)
  get_provider s name = known (find (λ p. text_eq p.name name) s.providers)

  unfoldable pub new_login_attempt : ℕ → Option Text → Text → Text → Exec env Text
  new_login_attempt now random provider client_ip = do
    state ← new_token random
    on_error (redis_set (set now (state_key state) (state_prefix provider ++ client_ip) state_ttl))
        (λ e. log_failed now provider client_ip (codes "state_not_stored"))
    pure state

  unfoldable pub begin : Service env → ℕ → Option Text → Text → Text → Exec env Text
  begin s now random provider client_ip = do
    p ←
        on_error (get_provider s provider)
          (λ e. log_failed now provider client_ip (codes "unknown_provider"))
    state ← new_login_attempt now random provider client_ip
    pure (p.auth_url state)

  abbrev pub issued_for : Text → Option Text → Exec env (Unit {0})
  issued_for provider none = raise bad_state
  issued_for provider (some value) =
      if has_prefix (state_prefix provider) value then pure tt else raise bad_state

  unfoldable pub consume_state : ℕ → Text → Text → Exec env (Unit {0})
  consume_state now state provider =
      if is_empty state
      then raise bad_state
      else do value ← get_del now (state_key state); issued_for provider value

  -- A database that cannot answer refuses the login.
  unfoldable pub domain_allowed : Service env → Text → Exec env Bool
  domain_allowed s email =
      if s.has_domains
      then catch (Domains.allowed email) (λ b. pure b) (λ e. pure false)
      else pure (in_list s.allowed_domains email)

  -- Complete past the check of the domain.
  unfoldable pub admitted :
      Service env → ℕ → Option Text → Text → Text → UserInfo → Exec env Session
  admitted s now random provider client_ip info = do
    a ←
        on_error (is_authorised info.email)
          (λ e. log_denied now info.email client_ip (codes "not_authorised"))
    sess ←
        on_error (create now s.session_ttl random (login_session a info client_ip))
          (λ e. log_failed now provider client_ip (codes "session_not_stored"))
    ignore (record_login now a.user.id)
    log now (login_entry a info client_ip)
    pure sess

  -- Complete past the provider's answer.
  unfoldable pub admit : Service env → ℕ → Option Text → Text → Text → UserInfo → Exec env Session
  admit s now random provider client_ip info = do
    allowed ← domain_allowed s info.email
    if not allowed
        then (log_denied now info.email client_ip (codes "domain_not_allowed")
            >> raise domain_blocked)
        else admitted s now random provider client_ip info

  unfoldable pub complete :
      Service env → ℕ → Option Text → Text → Text → Text → Text → Exec env Session
  complete s now random provider code state client_ip = do
    p ←
        on_error (get_provider s provider)
          (λ e. log_failed now provider client_ip (codes "unknown_provider"))
    on_error (consume_state now state provider)
        (λ e. log_failed now provider client_ip (codes "bad_state"))
    info ←
        on_error (p.exchange now code)
          (λ e. log_failed now provider client_ip (codes "identity_not_verified"))
    admit s now random provider client_ip info

  unfoldable pub logout : ℕ → Text → Exec env (Unit {0})
  logout now token =
      catch (get_session now token) (λ sess. log now (logout_entry sess) >> revoke now token)
        (λ e. if is_no_session e then revoke now token else raise e)

  unfoldable pub redeem_break_glass : Service env → ℕ → Text → Text → Exec env Session
  redeem_break_glass s now code client_ip =
      if not s.has_break_glass
      then raise no_break_glass
      else on_error (redeem now code)
          (λ e. log_failed now (codes "break-glass") client_ip (codes "not_redeemable"))

  -- RequestCode past its checks: the request is recorded either way.
  unfoldable pub request_recorded : ℕ → Option ℕ → Text → Text → Exec env (Unit {0})
  request_recorded now random email client_ip =
      catch (Otp.request now random email) (λ _. log now (code_sent email client_ip))
        (λ e.
          log now (entry none "signin_code_failed" client_ip (("email", text email) ∷ []))
          >> raise e)

  -- A refusal is not told to the caller.
  unfoldable pub request_code : Service env → ℕ → Option ℕ → Text → Text → Exec env (Unit {0})
  request_code s now random address client_ip =
      let email = Otp.canonical address in
      if not s.has_otp then raise code_disabled else do
        allowed ← domain_allowed s email
        if not allowed
            then log_denied now email client_ip (codes "domain_not_allowed")
            else catch (is_authorised email) (λ a. request_recorded now random email client_ip)
                (λ e. log_denied now email client_ip (codes "not_authorised"))

  unfoldable pub verify_code : Service env → ℕ → Text → Text → Text → Exec env (Unit {0})
  verify_code s now email code state =
      if not s.has_otp then raise code_disabled else Otp.verify now email code state

  unfoldable pub signed_in : ℕ → Text → Exec env Bool
  signed_in now client_ip =
      catch (get_by_client_ip now client_ip) (λ sess. pure true) (λ e. pure false)

  unfoldable pub client_disconnected : ℕ → Text → Exec env (Unit {0})
  client_disconnected now client_ip =
      catch (disconnected now client_ip) (λ _. pure tt)
        (λ e. if is_no_session e then pure tt else raise e)

  abbrev pub client_reconnected : ℕ → Text → Exec env (Unit {0})
  client_reconnected now client_ip = reconnected now client_ip

  abbrev pub logout_client_ip : ℕ → Text → Exec env (Unit {0})
  logout_client_ip now client_ip = revoke_by_client_ip now client_ip

  -- The code flow as a provider.
  unfoldable pub otp_provider : Provider env
  otp_provider = record {
    name = codes "otp";
    auth_url = λ state. codes "/otp/login?state=" ++ query_escape state;
    exchange = λ now code. do
      email ← Otp.exchange now code
      pure (record { email = email; name = email; provider = codes "otp" });
  }
