-- ===== src/Auth/Login/Trail.antt =====
-- What a login by a code leaves in Redis for its next step.
use dvarpala.Base.{ℕ, ◌+◌, ◌<◌, ◌≡◌, some, Text, text_eq_refl, arith}
use dvarpala.Platform.Redis.{Keyspace, at, get, get_number, ttl, set, del}
use dvarpala.Auth.Otp.{
  otp_key, otp_cooldown_key, otp_daily_key, otp_verified_key, otp_ttl, verified_ttl, store_code,
  drop_code,
}
use dvarpala.Auth.Otp.Keys.{attempts-ne-otp_key, daily-ne-otp_key, cooldown-ne-otp_key}
use dvarpala.Auth.Login.{state_key, state_ttl}
use dvarpala.Auth.Login.Keys.{
  otp_key-ne-state_key, cooldown-ne-state_key, daily-ne-state_key, attempts-ne-state_key,
  verified-ne-state_key, state_key-ne-cooldown, state_key-ne-daily, state_key-ne-verified,
}

module _ (t0 : ℕ) (state value : Text) (K : Keyspace) where
  -- After an attempt was made.
  abbrev pub attempted : Keyspace
  attempted = set t0 (state_key state) value state_ttl K

  pub ttl-attempted :
      (email : Text) → ttl t0 (otp_cooldown_key email) attempted ≡ ttl t0 (otp_cooldown_key email) K
  unfolding at
  ttl-attempted email = ground (arith, state_key-ne-cooldown state email)

  pub get_number-attempted :
      (email : Text)
      → get_number t0 (otp_daily_key email) attempted ≡ get_number t0 (otp_daily_key email) K
  unfolding at
  get_number-attempted email = ground (arith, state_key-ne-daily state email)

  -- After a code was sent.
  abbrev pub mailed : Text → Text → Keyspace
  mailed email code = store_code t0 email code attempted

  pub get-mailed :
      (t1 : ℕ) (email code : Text)
      → t1 < t0 + otp_ttl
      → get t1 (otp_key email) (mailed email code) ≡ some code
  unfolding at
  get-mailed t1 email code lt = ground (
    arith,
    attempts-ne-otp_key email email,
    daily-ne-otp_key email email,
    cooldown-ne-otp_key email email,
    text_eq_refl (otp_key email),
  )

  -- After the code was presented.
  abbrev pub proved : ℕ → Text → Text → Keyspace
  proved t1 email code =
      set t1 (otp_verified_key state) email verified_ttl (drop_code email (mailed email code))

  pub state-proved :
      (t1 t2 : ℕ) (email code : Text)
      → t2 < t0 + state_ttl
      → get t2 (state_key state) (proved t1 email code) ≡ some value
  unfolding at
  state-proved t1 t2 email code lt = ground (
    arith,
    verified-ne-state_key state state,
    attempts-ne-state_key email state,
    otp_key-ne-state_key email state,
    daily-ne-state_key email state,
    cooldown-ne-state_key email state,
    text_eq_refl (state_key state),
  )

  pub verified-proved :
      (t1 t2 : ℕ) (email code : Text)
      → t2 < t1 + verified_ttl
      → get t2 (otp_verified_key state) (del (state_key state) (proved t1 email code)) ≡ some email
  unfolding at
  verified-proved t1 t2 email code lt =
      ground (arith, state_key-ne-verified state state, text_eq_refl (otp_verified_key state))
