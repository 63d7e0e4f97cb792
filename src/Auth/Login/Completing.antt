-- ===== src/Auth/Login/Completing.antt =====
-- Complete for the code flow, on servers that answer: what it returns and what it leaves.
use dvarpala.Base.{ℕ, ◌≡◌, true, false, some, Text, codes, find, is_empty, has_prefix, text_eq}
use dvarpala.Models.{Session, User}
use dvarpala.Platform.{Env, IsReliable, ok, raise, pure, on_error, ignore, redis_call, execute}
use dvarpala.Platform.Redis.{Keyspace, get, del}
use dvarpala.Platform.Database.{Tables}
use dvarpala.Platform.Runs.{
  Runs, pure-Runs, bind-Runs, on_error-Runs, ignore-Runs, Runs-if, Runs-else, redis_call-Runs,
  execute-Runs,
}
use dvarpala.Services.Audit.{log, append_log}
use dvarpala.Services.Audit.Writing.{log-Runs}
use dvarpala.Services.Users.{Account, is_authorised, record_login, update_user}
use dvarpala.Services.Users.Standing.{Authorised}
use dvarpala.Auth.Session.Running.{create-Runs}
use dvarpala.Auth.Session.{create, stamp, store_session}
use dvarpala.Auth.Otp
use dvarpala.Auth.Otp.{otp_verified_key}
use dvarpala.Auth.Otp.Running.{exchange-Runs}
use dvarpala.Auth.BreakGlass.{get_del}
use dvarpala.Auth.Login.{
  UserInfo, Provider, Service, state_key, state_prefix, login_session, login_entry, get_provider,
  consume_state, domain_allowed, admitted, admit, complete, otp_provider,
}
use dvarpala.Auth.Login.Running.{admits, is_authorised-Runs, domain_allowed-Runs}

-- The session that a login creates.
abbrev pub session_of : Account → UserInfo → Text → Text → ℕ → ℕ → Session
session_of a info client_ip tok now ttl = stamp (login_session a info client_ip) tok now ttl

-- The table of users after a login.
abbrev pub logged_in : ℕ → User → User
logged_in now u = record u { last_login = some now }

abbrev pub code_info : Text → UserInfo
code_info email = record { email = email; name = email; provider = codes "otp" }

module _ {env : Env} (up : IsReliable env) where
  get_provider-Runs :
      {K : Keyspace} {T : Tables} (s : Service env) (name : Text) (p : Provider env)
      → find (λ (q : Provider env). text_eq q.name name) s.providers ≡ some p
      → Runs (get_provider s name) K T (ok p) K T
  unfolding get_provider
  get_provider-Runs s name p h = rw h (pure-Runs p)

  consume_state-Runs :
      {K : Keyspace} {T : Tables} (now : ℕ) (state provider value : Text)
      → is_empty state ≡ false
      → get now (state_key state) K ≡ some value
      → has_prefix (state_prefix provider) value ≡ true
      → Runs {env = env} (consume_state now state provider) K T (ok tt) (del (state_key state) K) T
  unfolding consume_state get_del
  consume_state-Runs {K} now state provider value ne held pre =
      let key = state_key state in
      Runs-else _ _ (raise _) ne (
        bind-Runs (redis_call (get now key) (del key)) _
          (redis_call-Runs up (get now key) (del key))
          (rw held (Runs-if (pure tt) _ (raise _) pre (pure-Runs tt))))

  admitted-Runs :
      {K : Keyspace} {T : Tables} (s : Service env) (now : ℕ) (tok provider client_ip : Text)
      (info : UserInfo) (a : Account)
      → Authorised info.email T a
      → let sess = session_of a info client_ip tok now s.session_ttl in
        Runs
          (admitted s now (some tok) provider client_ip info)
          K
          T
          (ok sess)
          (store_session now s.session_ttl sess (env.marshal sess) K)
          (append_log now (login_entry a info client_ip) (update_user a.user.id (logged_in now) T))
  unfolding admitted record_login
  admitted-Runs s now tok provider client_ip info a who =
      let sess = session_of a info client_ip tok now s.session_ttl in
      let m = create now s.session_ttl (some tok) (login_session a info client_ip) in
      bind-Runs (on_error (is_authorised info.email) _) _
        (on_error-Runs (is_authorised info.email) _ (is_authorised-Runs up info.email a who))
        (bind-Runs (on_error m _) _
          (on_error-Runs m _
            (create-Runs up now s.session_ttl tok (login_session a info client_ip)))
          (bind-Runs (ignore (execute (update_user a.user.id (logged_in now)))) _
            (ignore-Runs _ (execute-Runs up (update_user a.user.id (logged_in now))))
            (bind-Runs (log now (login_entry a info client_ip)) _
              (log-Runs up now (login_entry a info client_ip)) (pure-Runs sess))))

  -- Complete, of an attempt whose state is known and whose code was right.
  pub complete-Runs :
      {K : Keyspace} {T : Tables} (s : Service env) (now : ℕ)
      (tok state client_ip value email : Text) (a : Account)
      → find (λ (p : Provider env). text_eq p.name (codes "otp")) s.providers ≡ some otp_provider
      → is_empty state ≡ false
      → get now (state_key state) K ≡ some value
      → has_prefix (state_prefix (codes "otp")) value ≡ true
      → get now (otp_verified_key state) (del (state_key state) K) ≡ some email
      → admits s email T ≡ true
      → Authorised email T a
      → let sess = session_of a (code_info email) client_ip tok now s.session_ttl in
        Runs
          (complete s now (some tok) (codes "otp") state state client_ip)
          K
          T
          (ok sess)
          (store_session now s.session_ttl sess
            (env.marshal sess)
            (del (otp_verified_key state) (del (state_key state) K)))
          (append_log now
            (login_entry a (code_info email) client_ip)
            (update_user a.user.id (logged_in now) T))
  unfolding complete otp_provider admit
  complete-Runs s now tok state client_ip value email a offers ne held pre proved inside who =
      let otp = codes "otp" in
      bind-Runs (on_error (get_provider s otp) _) _
        (on_error-Runs (get_provider s otp) _ (get_provider-Runs s otp otp_provider offers))
        (bind-Runs (on_error (consume_state now state otp) _) _
          (on_error-Runs (consume_state now state otp) _
            (consume_state-Runs now state otp value ne held pre))
          (bind-Runs (on_error (otp_provider.exchange now state) _) _
            (on_error-Runs (otp_provider.exchange now state) _ (
              bind-Runs (Otp.exchange now state) _ (exchange-Runs up now state email proved)
                (pure-Runs (code_info email))))
            (bind-Runs (domain_allowed s email) _ (domain_allowed-Runs up s email inside)
              (admitted-Runs s now tok otp client_ip (code_info email) a who))))
