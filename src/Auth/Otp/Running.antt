-- ===== src/Auth/Otp/Running.antt =====
-- Requesting, presenting and exchanging a code, on servers that answer.
use dvarpala.Base.{ℕ, ◌<◌, ◌≡◌, true, some, Text, text_eq_refl, trim_space, arith}
use dvarpala.Platform.{Env, IsReliable, ok, redis_get, redis_set, raise, ignore}
use dvarpala.Platform.Redis.{Keyspace, get, get_number, ttl, set, del}
use dvarpala.Platform.Database.{Tables}
use dvarpala.Platform.Runs.{
  Runs, pure-Runs, bind-Runs, catch-Runs, ignore-Runs, Runs-if, Runs-else, redis_get-Runs,
  redis_set-Runs,
}
use dvarpala.Auth.Otp.{
  otp_key, otp_cooldown_key, otp_daily_key, otp_verified_key, otp_daily_limit, verified_ttl,
  counted, canonical, drawn, generate_code, store_code, drop_code, send, below_daily_limit, request,
  verify, right_code, wrong_code, exchange,
}

module _ {env : Env} (up : IsReliable env) {K : Keyspace} {T : Tables} where
  send-Runs :
      (now n : ℕ) (email : Text)
      → env.send_code email (generate_code n) ≡ true
      → Runs {env = env}
          (send now (some n) email)
          K
          T
          (ok tt)
          (store_code now email (generate_code n) K)
          T
  unfolding send
  send-Runs now n email sent = bind-Runs (drawn (some n)) _ (pure-Runs (generate_code n)) (
      bind-Runs (redis_set (store_code now email (generate_code n))) _
        (redis_set-Runs up (store_code now email (generate_code n)))
        (Runs-if _ _ (raise _) sent (pure-Runs tt)))

  -- A request below both limits.
  pub request-Runs :
      (now n : ℕ) (address : Text)
      → ttl now (otp_cooldown_key (canonical address)) K ≡ 0
      → counted (get_number now (otp_daily_key (canonical address)) K) < otp_daily_limit
      → env.send_code (canonical address) (generate_code n) ≡ true
      → Runs {env = env}
          (request now (some n) address)
          K
          T
          (ok tt)
          (store_code now (canonical address) (generate_code n) K)
          T
  unfolding request below_daily_limit
  request-Runs now n address cool few sent =
      let email = canonical address in
      catch-Runs (redis_get (ttl now (otp_cooldown_key email))) _ _
        (redis_get-Runs up (ttl now (otp_cooldown_key email)))
        (Runs-else _ _ (raise _) (ground arith) (
          catch-Runs (redis_get (get_number now (otp_daily_key email))) _ _
            (redis_get-Runs up (get_number now (otp_daily_key email)))
            (Runs-else _ _ (raise _) (ground arith) (send-Runs now n email sent))))

  -- The right code.
  pub verify-Runs :
      (now : ℕ) (address code state : Text)
      → get now (otp_key (canonical address)) K ≡ some (trim_space code)
      → Runs {env = env}
          (verify now address code state)
          K
          T
          (ok tt)
          (set now
            (otp_verified_key state)
            (canonical address)
            verified_ttl
            (drop_code (canonical address) K))
          T
  unfolding verify right_code
  verify-Runs now address code state held =
      let email = canonical address in
      bind-Runs (redis_get (get now (otp_key email))) _
        (redis_get-Runs up (get now (otp_key email)))
        (rw held (
          Runs-if _ _ (wrong_code now email) (text_eq_refl (trim_space code)) (
            redis_set-Runs up
              (λ m. set now (otp_verified_key state) email verified_ttl (drop_code email m)))))

  pub exchange-Runs :
      (now : ℕ) (code email : Text)
      → get now (otp_verified_key code) K ≡ some email
      → Runs {env = env} (exchange now code) K T (ok email) (del (otp_verified_key code) K) T
  unfolding exchange
  exchange-Runs now code email held =
      bind-Runs (redis_get (get now (otp_verified_key code))) _
        (redis_get-Runs up (get now (otp_verified_key code)))
        (rw held (
          bind-Runs (ignore (redis_set (del (otp_verified_key code)))) _
            (ignore-Runs _ (redis_set-Runs up (del (otp_verified_key code)))) (pure-Runs email)))
