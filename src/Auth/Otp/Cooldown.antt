-- ===== src/Auth/Otp/Cooldown.antt =====
-- internal/auth/otp.go: the minute between two codes for an address, as TTL reads it.
use dvarpala.Base.{ℕ, ◌+◌, ◌*◌, ◌<◌, ◌≤◌, ◌≡◌, ◌≢◌, ap, ◌∙◌, true, Option, none, some, Text, arith}
use dvarpala.Platform.{
  Env, World, IsReliable, err, too_soon, ◌>>=◌, catch, redis_get, redis_set, keys,
}
use dvarpala.Platform.Redis.{millisecond, Value, Keyspace, at, get_number, ttl}
use dvarpala.Auth.Otp.{
  otp_cooldown_key, otp_daily_key, otp_cooldown, otp_daily_limit, counted, canonical, generate_code,
  send, below_daily_limit, request,
}
use dvarpala.Auth.Otp.Guesses.{cell_until}
use dvarpala.Auth.Otp.Flow.{store_code-cooldown, request-keys}

abbrev pub half_second : ℕ
half_second = 500 * millisecond

-- What TTL reads of a deadline: something until half a second before it, and nothing from a
-- millisecond later on.
ttl_rounded :
    (later e : ℕ) {v : Value} (key : Text) (m : Keyspace)
    → m key ≡ cell_until v e
    → (later + half_second ≤ e → 0 < ttl later key m)
      × (e + millisecond ≤ later + half_second → ttl later key m ≡ 0)
unfolding at
ttl_rounded later e {v} key m h = (λ soon. ground arith, λ late. ground arith)

module _ {env : Env} (up : IsReliable env) (address : Text) where
  -- Where the cooldown reads as none, a request is not refused as too soon.
  request_cool :
      (now : ℕ) (random : Option ℕ) (w : World env)
      → ttl now (otp_cooldown_key (canonical address)) (keys w) ≡ 0
      → (request now random address w).0 ≢ err too_soon
  unfolding request below_daily_limit send catch redis_get redis_set ◌>>=◌
  request_cool now none w cool e =
      let u = env.redis.view-query w.redis in ground (arith, up.redis_up w.redis)
  request_cool now (some n) w cool e =
      let u = env.redis.view-query w.redis in ground (arith, up.redis_up w.redis)

  -- On servers that answer, where no cooldown runs, fewer codes than the daily limit were asked
  -- for and the mail is taken: after a code was sent, another request is refused as too soon, and
  -- changes nothing in Redis, until half a second before the minute is over. From then on, a
  -- millisecond aside, it is not refused as too soon: Redis rounds the time left to whole seconds.
  pub request-request :
      (now n later : ℕ) (random : Option ℕ) (w : World env)
      → ttl now (otp_cooldown_key (canonical address)) (keys w) ≡ 0
      → counted (get_number now (otp_daily_key (canonical address)) (keys w)) < otp_daily_limit
      → env.send_code (canonical address) (generate_code n) ≡ true
      → let w' = (request now (some n) address w).1 in
        let (r, w'') = request later random address w' in
        (later + half_second ≤ now + otp_cooldown → (r ≡ err too_soon) × (keys w'' ≡ keys w'))
        × (now + otp_cooldown + millisecond ≤ later + half_second → r ≢ err too_soon)
  unfolding request catch redis_get
  request-request now n later random w cool few sent =
      let email = canonical address in
      let w' = (request now (some n) address w).1 in
      let (r, k) = request-keys up address now n w cool few sent in
      let same = env.redis.view-query w'.redis in
      let cell =
        ap (λ (m : Keyspace). m (otp_cooldown_key email)) k
        ∙ store_code-cooldown now email (generate_code n) (keys w) in
      let (running, over) =
        ttl_rounded later (now + otp_cooldown) (otp_cooldown_key email) (keys w') cell in
      (
        λ soon. let left = running soon in ground (arith, up.redis_up w'.redis),
        λ late. request_cool later random w' (over late),
      )
