-- ===== src/Auth/Otp.antt =====
-- internal/auth/otp.go: one-time sign-in codes in Redis. A fresh random number below 10 ^ 6 (none
-- where crypto/rand fails) is an argument.
pub mod Keys
pub mod Guesses
pub mod Flow
pub mod Cooldown
pub mod Running
use dvarpala.Base.{
  ℕ, zero, suc, ◌+◌, ◌-◌, ◌*◌, ◌/◌, ◌%◌, Bool, true, false, Option, none, some, List, [], ◌∷◌, ◌++◌,
  Text, codes, ltb, leb, ◌==◌, is_empty, to_lower, trim_space, text_eq, if◌then◌else◌,
}
use dvarpala.Models.{second, minute, hour}
use dvarpala.Platform.{
  Env, World, Exec, Error, too_soon, daily_limit, mail_failed, random_failed, code_expired,
  code_wrong, code_exhausted, not_verified, pure, raise, ◌>>=◌, ◌>>◌, catch, ignore, redis_get,
  redis_set, redis_call,
}
use dvarpala.Platform.Redis.{
  Keyspace, get, get_number, ttl, set, del, incr, incr_cell, expire, at, number_of,
}

abbrev pub otp_length : ℕ
otp_length = 6

abbrev pub otp_ttl : ℕ
otp_ttl = 5 * minute

abbrev pub otp_cooldown : ℕ
otp_cooldown = 60 * second

abbrev pub otp_daily_limit : ℕ
otp_daily_limit = 10

abbrev pub otp_max_tries : ℕ
otp_max_tries = 5

abbrev pub verified_ttl : ℕ
verified_ttl = 2 * minute

unfoldable pub otp_key : Text → Text
otp_key email = codes "otp:" ++ email

unfoldable pub otp_cooldown_key : Text → Text
otp_cooldown_key email = codes "otp_cooldown:" ++ email

unfoldable pub otp_daily_key : Text → Text
otp_daily_key email = codes "otp_daily:" ++ email

unfoldable pub otp_attempts_key : Text → Text
otp_attempts_key email = codes "otp_attempts:" ++ email

unfoldable pub otp_verified_key : Text → Text
otp_verified_key state = codes "otp_verified:" ++ state

-- "%0*d": the last digits of a number, in front of those that follow.
unfoldable pub padded : ℕ → ℕ → Text → Text
padded zero n acc = acc
padded (suc k) n acc = padded k (n / 10) ((b'0' + n % 10) ∷ acc)

-- The number is drawn below 10 ^ otp_length, so the digits are all of it.
unfoldable pub generate_code : ℕ → Text
unfolding padded
generate_code n = padded otp_length n []

abbrev pub canonical : Text → Text
canonical email = to_lower (trim_space email)

-- The transaction of Request.
abbrev pub store_code : ℕ → Text → Text → Keyspace → Keyspace
store_code now email code m = del (otp_attempts_key email) (
    expire now (otp_daily_key email) (24 * hour) (
      incr now (otp_daily_key email) (
        set now (otp_cooldown_key email) (codes "1") otp_cooldown
          (set now (otp_key email) code otp_ttl m))))

-- Both keys of a code.
abbrev pub drop_code : Text → Keyspace → Keyspace
drop_code email m = del (otp_attempts_key email) (del (otp_key email) m)

abbrev pub counted : Option ℕ → ℕ
counted none = 0
counted (some n) = n

-- The reply of INCR on the counter of attempts.
abbrev pub attempts_after : ℕ → Text → Keyspace → ℕ
attempts_after now email m = counted (number_of (incr_cell (at now (otp_attempts_key email) m)))

module _ {env : Env} where
  abbrev pub drawn : Option ℕ → Exec env Text
  drawn none = raise random_failed
  drawn (some n) = pure (generate_code n)

  -- What Request does past its limits.
  unfoldable pub send : ℕ → Option ℕ → Text → Exec env (Unit {0})
  send now random email = do
    code ← drawn random
    redis_set (store_code now email code)
    if env.send_code email code then pure tt else raise mail_failed

  -- A limit that cannot be read does not stop a request.
  unfoldable pub below_daily_limit : ℕ → Option ℕ → Text → Exec env (Unit {0})
  below_daily_limit now random email =
      catch (redis_get (get_number now (otp_daily_key email)))
        (λ n. if leb otp_daily_limit (counted n) then raise daily_limit else send now random email)
        (λ e. send now random email)

  unfoldable pub request : ℕ → Option ℕ → Text → Exec env (Unit {0})
  request now random address =
      let email = canonical address in
      catch (redis_get (ttl now (otp_cooldown_key email)))
        (λ left. if ltb 0 left then raise too_soon else below_daily_limit now random email)
        (λ e. below_daily_limit now random email)

  -- Past the count of a wrong code; a counter that cannot be read counts as 0.
  abbrev pub judge : Text → ℕ → Exec env (Unit {0})
  judge email attempts =
      if leb otp_max_tries attempts
      then (ignore (redis_set (drop_code email)) >> raise code_exhausted)
      else raise code_wrong

  unfoldable pub wrong_code : ℕ → Text → Exec env (Unit {0})
  wrong_code now email =
      catch (redis_call (attempts_after now email) (incr now (otp_attempts_key email)))
        (λ n.
          if n == 1
          then (ignore (redis_set (expire now (otp_attempts_key email) otp_ttl)) >> judge email n)
          else judge email n)
        (λ e. judge email 0)

  unfoldable pub right_code : ℕ → Text → Text → Exec env (Unit {0})
  right_code now email state =
      redis_set (λ m. set now (otp_verified_key state) email verified_ttl (drop_code email m))

  abbrev pub check_code : ℕ → Text → Text → Text → Option Text → Exec env (Unit {0})
  check_code now email code state none = raise code_expired
  check_code now email code state (some stored) =
      if text_eq stored code then right_code now email state else wrong_code now email

  unfoldable pub verify : ℕ → Text → Text → Text → Exec env (Unit {0})
  verify now address code state =
      let email = canonical address in
      do
        stored ← redis_get (get now (otp_key email))
        check_code now email (trim_space code) state stored

  abbrev pub verified : Option Text → Text → Exec env Text
  verified none code = raise not_verified
  verified (some email) code = ignore (redis_set (del (otp_verified_key code))) >> pure email

  -- OTPProvider.Exchange: the address that the attempt has proved.
  unfoldable pub exchange : ℕ → Text → Exec env Text
  exchange now code = do found ← redis_get (get now (otp_verified_key code)); verified found code
