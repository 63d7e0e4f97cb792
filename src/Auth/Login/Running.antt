-- ===== src/Auth/Login/Running.antt =====
-- A login by a code, step by step, on servers that answer.
use dvarpala.Base.{
  ℕ, ◌<◌, ◌≡◌, ap, subst, to_lower-trim_space_twice, Bool, true, false, not, ◌||◌, some, Text, ◌++◌,
  keep, length, ltb, ◌==◌, if◌then◌else◌, arith, inl, inr, Bool-cases,
}
use dvarpala.Platform.{
  Env, IsReliable, Result, ok, err, raise, pure, catch, on_error, select, redis_set,
}
use dvarpala.Platform.Redis.{Keyspace, get_number, ttl, set}
use dvarpala.Platform.Database.{Tables}
use dvarpala.Platform.Runs.{
  Runs, pure-Runs, bind-Runs, catch-Runs, on_error-Runs, Runs-if, Runs-else, redis_set-Runs,
  select-Runs,
}
use dvarpala.Services.Audit.{append_log}
use dvarpala.Services.Audit.Writing.{log-Runs}
use dvarpala.Services.Users.{
  Account, account_of, normalise_email, get_user_by_email, is_authorised, is_active,
}
use dvarpala.Services.Users.Standing.{Authorised}
use dvarpala.Services.Domains
use dvarpala.Services.Domains.{domain_of, domain_listed, is_domain}
use dvarpala.Auth.Session.{new_token}
use dvarpala.Auth.Otp
use dvarpala.Auth.Otp.{
  otp_key, otp_cooldown_key, otp_daily_key, otp_verified_key, otp_daily_limit, verified_ttl,
  counted, canonical, generate_code, store_code, drop_code,
}
use dvarpala.Auth.Otp.Running.{request-Runs}
use dvarpala.Auth.Login.{
  code_sent, state_ttl, Service, state_key, in_list, state_prefix, new_login_attempt,
  domain_allowed, request_recorded, request_code,
}

-- What the allow-list of the database says of the domain of an address.
abbrev pub listed : Tables → Result Text → Bool
listed t (err e) = false
listed t (ok d) = length t.domains.rows == 0 || ltb 0 (length (keep (is_domain d) t.domains.rows))

-- Whether the domain of an address may sign in.
abbrev pub admits : {env : Env} → Service env → Text → Tables → Bool
admits s email t =
    if s.has_domains then listed t (domain_of email) else in_list s.allowed_domains email

module _ {env : Env} (up : IsReliable env) {K : Keyspace} {T : Tables} where
  get_user_by_email-Runs :
      (email : Text) (a : Account)
      → account_of (normalise_email email) T ≡ some a
      → Runs {env = env} (get_user_by_email email) K T (ok a) K T
  unfolding get_user_by_email
  get_user_by_email-Runs email a h =
      bind-Runs (select (account_of (normalise_email email))) _
        (select-Runs up (account_of (normalise_email email))) (rw h (pure-Runs a))

  pub is_authorised-Runs :
      (email : Text) (a : Account)
      → Authorised email T a
      → Runs {env = env} (is_authorised email) K T (ok a) K T
  unfolding is_authorised
  is_authorised-Runs email a (there, active) =
      bind-Runs (get_user_by_email email) _ (get_user_by_email-Runs email a there)
        (Runs-if (pure a) _ (raise _) (ap is_active active) (pure-Runs a))

  domain_listed-Runs :
      (d : Result Text) → listed T d ≡ true → Runs {env = env} (domain_listed d) K T (ok true) K T
  unfolding domain_listed
  domain_listed-Runs (err e) h = absurd (ground arith)
  domain_listed-Runs (ok d) h =
      bind-Runs (select (λ t. length t.domains.rows)) _
        (select-Runs up (λ t. length t.domains.rows))
        (elim (Bool-cases (length T.domains.rows == 0)) [
          | inl e ↦ Runs-if (pure true) _ _ e (pure-Runs true)
          | inr e ↦ Runs-else _ _ (pure true) e (
              bind-Runs (select (λ t. length (keep (is_domain d) t.domains.rows))) _
                (select-Runs up (λ t. length (keep (is_domain d) t.domains.rows)))
                (counted_positive e))
        ])
    where
      counted_positive :
          (length T.domains.rows == 0) ≡ false
          → Runs {env = env}
              (pure (ltb 0 (length (keep (is_domain d) T.domains.rows))))
              K
              T
              (ok true)
              K
              T
      counted_positive e =
          let some_rows : ltb 0 (length (keep (is_domain d) T.domains.rows)) ≡ true =
            ground arith in
          rw some_rows (pure-Runs true)

  pub domain_allowed-Runs :
      (s : Service env) (email : Text)
      → admits s email T ≡ true
      → Runs (domain_allowed s email) K T (ok true) K T
  unfolding domain_allowed Domains.allowed
  domain_allowed-Runs s email h = elim (Bool-cases s.has_domains) [
    | inl e ↦ Runs-if (catch (Domains.allowed email) (λ b. pure b) (λ x. pure false)) _ _ e (
        catch-Runs (Domains.allowed email) _ _ (domain_listed-Runs (domain_of email) (ground arith))
          (pure-Runs true))
    | inr e ↦
        let inside : in_list s.allowed_domains email ≡ true = ground arith in
        Runs-else (pure (in_list s.allowed_domains email)) _ _ e (rw inside (pure-Runs true))
  ]

  pub new_login_attempt-Runs :
      (now : ℕ) (state provider client_ip : Text)
      → Runs {env = env}
          (new_login_attempt now (some state) provider client_ip)
          K
          T
          (ok state)
          (set now (state_key state) (state_prefix provider ++ client_ip) state_ttl K)
          T
  unfolding new_login_attempt
  new_login_attempt-Runs now state provider client_ip =
      let f = set now (state_key state) (state_prefix provider ++ client_ip) state_ttl in
      bind-Runs (new_token (some state)) _ (pure-Runs state) (
        bind-Runs (on_error (redis_set f) _) _ (on_error-Runs (redis_set f) _ (redis_set-Runs up f))
          (pure-Runs state))

  -- A code is sent to an address that may sign in.
  pub request_code-Runs :
      (s : Service env) (now n : ℕ) (address client_ip : Text) (a : Account)
      → s.has_otp ≡ true
      → admits s (canonical address) T ≡ true
      → Authorised (canonical address) T a
      → ttl now (otp_cooldown_key (canonical address)) K ≡ 0
      → counted (get_number now (otp_daily_key (canonical address)) K) < otp_daily_limit
      → env.send_code (canonical address) (generate_code n) ≡ true
      → Runs
          (request_code s now (some n) address client_ip)
          K
          T
          (ok tt)
          (store_code now (canonical address) (generate_code n) K)
          (append_log now (code_sent (canonical address) client_ip) T)
  unfolding request_code request_recorded
  request_code-Runs s now n address client_ip a offered inside who cool few sent =
      let email = canonical address in
      let twice : canonical email ≡ email = to_lower-trim_space_twice address in
      Runs-else _ _ (raise _) (ap not offered) (
        bind-Runs (domain_allowed s email) _ (domain_allowed-Runs s email inside) (
          catch-Runs (is_authorised email) _ _ (is_authorised-Runs email a who) (
            catch-Runs (Otp.request now (some n) email) _ _
              (subst
                (λ x.
                  Runs {env = env} (Otp.request now (some n) email) K T (ok tt)
                    (store_code now x (generate_code n) K) T)
                twice (request-Runs up now n email (rw twice cool) (rw twice few) (rw twice sent)))
              (log-Runs up now (code_sent email client_ip)))))
