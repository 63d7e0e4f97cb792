-- ===== src/Auth/Otp/Flow.antt =====
-- A code from its request to the identity that it proves.
use dvarpala.Base.{
  ℕ, zero, suc, ◌+◌, ◌/◌, ◌<◌, ◌≡◌, ◌≢◌, refl, sym, ap, subst, ◌∙◌, inl, true, none, some, [], Text,
  arith, codes, text_eq_refl, trim_space, trim_space-NoSpace, NoSpace,
}
use dvarpala.Platform.{
  Env, World, IsReliable, ok, err, not_verified, ◌>>=◌, catch, ignore, redis_get, redis_set, keys,
}
use dvarpala.Platform.Redis.{Keyspace, text, at, get, get_number, ttl, set, del}
use dvarpala.Auth.Otp.{
  otp_key, otp_attempts_key, otp_cooldown_key, otp_daily_key, otp_verified_key, otp_ttl,
  otp_cooldown, otp_daily_limit, verified_ttl, counted, canonical, padded, generate_code,
  store_code, drop_code, send, below_daily_limit, request, verify, right_code, exchange,
}
use dvarpala.Auth.Otp.Keys.{
  attempts-ne-otp_key, daily-ne-otp_key, cooldown-ne-otp_key, daily-ne-cooldown,
  attempts-ne-cooldown,
}
use dvarpala.Auth.Otp.Guesses.{Pending, cell_until}

padded-NoSpace : (k n : ℕ) (acc : Text) → NoSpace acc → NoSpace (padded k n acc)
unfolding padded
padded-NoSpace zero n acc h = h
padded-NoSpace (suc k) n acc h = padded-NoSpace k (n / 10) _ (ground arith, h)

-- The code that is mailed is what a person's input is compared with.
trim_space-generate_code : (n : ℕ) → trim_space (generate_code n) ≡ generate_code n
unfolding generate_code
trim_space-generate_code n = trim_space-NoSpace _ (padded-NoSpace 6 n [] tt)

-- What a request leaves for its guesses.
store_code-Pending :
    (now : ℕ) (email code : Text) (m : Keyspace)
    → Pending email code (now + otp_ttl) 0 (store_code now email code m)
store_code-Pending now email code m = record {
  code = ground (
    arith,
    attempts-ne-otp_key email email,
    daily-ne-otp_key email email,
    cooldown-ne-otp_key email email,
    text_eq_refl (otp_key email),
  );
  counter = inl (refl, ground (arith, text_eq_refl (otp_attempts_key email)));
}

pub store_code-cooldown :
    (now : ℕ) (email code : Text) (m : Keyspace)
    → store_code now email code m (otp_cooldown_key email)
      ≡ cell_until (text (codes "1")) (now + otp_cooldown)
store_code-cooldown now email code m = ground (
  arith,
  attempts-ne-cooldown email email,
  daily-ne-cooldown email email,
  text_eq_refl (otp_cooldown_key email),
)

module _ {env : Env} (up : IsReliable env) (address : Text) where
  send-keys :
      (now n : ℕ) (email : Text) (w : World env)
      → env.send_code email (generate_code n) ≡ true
      → let (r, w') = send now (some n) email w in
        (r ≡ ok tt) × (keys w' ≡ store_code now email (generate_code n) (keys w))
  unfolding send ◌>>=◌ redis_set
  send-keys now n email w sent = ground (
    arith,
    up.redis_up w.redis,
    env.redis.view-update (store_code now email (generate_code n)) w.redis,
  )

  pub request-keys :
      (now n : ℕ) (w : World env)
      → ttl now (otp_cooldown_key (canonical address)) (keys w) ≡ 0
      → counted (get_number now (otp_daily_key (canonical address)) (keys w)) < otp_daily_limit
      → env.send_code (canonical address) (generate_code n) ≡ true
      → let (r, w') = request now (some n) address w in
        (r ≡ ok tt) × (keys w' ≡ store_code now (canonical address) (generate_code n) (keys w))
  unfolding request below_daily_limit catch redis_get
  request-keys now n w cool few sent =
      let email = canonical address in
      let v = (redis_get (ttl now (otp_cooldown_key email)) w).1 in
      let u = (redis_get (get_number now (otp_daily_key email)) v).1 in
      let v_same = env.redis.view-query w.redis in
      let u_same = env.redis.view-query v.redis in
      let (r, k) = send-keys now n email u sent in
      ground (arith, up.redis_up w.redis, up.redis_up v.redis)

  verify-keys :
      (t e : ℕ) (input stored state : Text) (w : World env)
      → Pending (canonical address) stored e 0 (keys w)
      → t < e
      → trim_space input ≡ stored
      → let (r, w') = verify t address input state w in
        (r ≡ ok tt)
        × (keys w'
            ≡ set t
                (otp_verified_key state)
                (canonical address)
                verified_ttl
                (drop_code (canonical address) (keys w)))
  unfolding verify ◌>>=◌ redis_get right_code redis_set at
  verify-keys t e input stored state w p lt same =
      let email = canonical address in
      let v = (redis_get (get t (otp_key email)) w).1 in
      let v_same = env.redis.view-query w.redis in
      let f =
        λ (m : Keyspace). set t (otp_verified_key state) email verified_ttl (drop_code email m) in
      let hit = text_eq_refl stored in
      ground
        (arith, up.redis_up w.redis, up.redis_up v.redis, p.code, env.redis.view-update f v.redis)

  exchange-keys :
      (t : ℕ) (state : Text) (w : World env)
      → let (r, w') = exchange t state w in
        (r ≡ elim (get t (otp_verified_key state) (keys w)) [
          | none ↦ err not_verified
          | some a ↦ ok a
        ])
        × (get t (otp_verified_key state) (keys w) ≢ none
            → keys w' ≡ del (otp_verified_key state) (keys w))
  unfolding exchange ◌>>=◌ redis_get ignore redis_set
  exchange-keys t state w =
      let v = (redis_get (get t (otp_verified_key state)) w).1 in
      let v_same = env.redis.view-query w.redis in
      (
        ground (arith, up.redis_up w.redis),
        λ h. ground (
          arith,
          up.redis_up w.redis,
          up.redis_up v.redis,
          env.redis.view-update (del (otp_verified_key state)) v.redis,
        ),
      )

  -- An attempt that is marked verified proves its address once, within its two minutes.
  exchange_once :
      (t u later : ℕ) (state email : Text) (m : Keyspace) (w : World env)
      → keys w ≡ set t (otp_verified_key state) email verified_ttl m
      → u < t + verified_ttl
      → let (r, w') = exchange u state w in
        (r ≡ ok email) × ((exchange later state w').0 ≡ err not_verified)
  unfolding at
  exchange_once t u later state email m w h lt =
      let key = otp_verified_key state in
      let there : get u key (keys w) ≡ some email =
        ap (λ (x : Keyspace). get u key x) h ∙ ground (arith, text_eq_refl key) in
      let (r, k) = exchange-keys u state w in
      let w' = (exchange u state w).1 in
      let gone = exchange-keys later state w' in
      let dropped = k (λ e. cc) in (ground arith, ground (arith, text_eq_refl key))

  -- On servers that answer, where no cooldown runs, fewer codes than the daily limit were asked
  -- for and the mail is taken: the code that a request mails can be presented until its lifetime
  -- is over, with blanks around it; the attempt that presents it proves the address within two
  -- minutes, once.
  pub request-verify-exchange :
      (now n t u later : ℕ) (input state : Text) (w : World env)
      → ttl now (otp_cooldown_key (canonical address)) (keys w) ≡ 0
      → counted (get_number now (otp_daily_key (canonical address)) (keys w)) < otp_daily_limit
      → env.send_code (canonical address) (generate_code n) ≡ true
      → t < now + otp_ttl
      → trim_space input ≡ generate_code n
      → u < t + verified_ttl
      → let (r, w') = request now (some n) address w in
        let (r', w'') = verify t address input state w' in
        let (r'', w''') = exchange u state w'' in
        (r ≡ ok tt)
        × (r' ≡ ok tt)
        × (r'' ≡ ok (canonical address))
        × ((exchange later state w''').0 ≡ err not_verified)
  request-verify-exchange now n t u later input state w cool few sent in_time same soon =
      let email = canonical address in
      let code = generate_code n in
      let w' = (request now (some n) address w).1 in
      let w'' = (verify t address input state w').1 in
      let (r, k) = request-keys now n w cool few sent in
      let pending =
        subst (Pending email code (now + otp_ttl) 0) (sym k)
          (store_code-Pending now email code (keys w)) in
      let (r', k') = verify-keys t (now + otp_ttl) input code state w' pending in_time same in
      let (r'', once) = exchange_once t u later state email _ w'' k' soon in (r, r', r'', once)
