-- ===== src/Auth/Session.antt =====
-- internal/auth/session.go: sessions in Redis, under the browser's token and the tunnel address.
-- The time, the lifetime and a fresh token (none where crypto/rand fails) are arguments.
pub mod Keys
pub mod Lifecycle
pub mod Ending
pub mod Pairing
pub mod Shortening
pub mod Reachable
pub mod Absence
pub mod Active
pub mod Readers
pub mod Running
pub mod Views
pub mod Refinement
use dvarpala.Base.{
  ℕ, ◌+◌, ◌-◌, ◌*◌, Bool, true, false, Option, none, some, List, Text, codes, ◌++◌, ltb, is_empty,
  if◌then◌else◌,
}
use dvarpala.Models.{Session, minute, hour}
use dvarpala.Platform.{
  Env, World, Exec, Error, no_session, bad_payload, random_failed, pure, raise, ◌>>=◌, ◌>>◌, catch,
  redis_get, redis_set,
}
use dvarpala.Platform.Redis.{Keyspace, get, set, del, expire, whole_seconds}

-- NewSessionService: a lifetime that is not positive is 8 hours.
unfoldable pub effective_ttl : ℕ → ℕ
effective_ttl ttl = if ltb 0 ttl then ttl else 8 * hour

unfoldable pub session_key : Text → Text
session_key token = codes "session:" ++ token

unfoldable pub auth_key : Text → Text
auth_key client_ip = codes "auth:" ++ client_ip

abbrev pub disconnect_grace : ℕ
disconnect_grace = 2 * minute

abbrev pub stamp : Session → Text → ℕ → ℕ → Session
stamp sess token now ttl = record sess { token = token; issued_at = now; expires = now + ttl }

-- The transaction of Create, on what Redis holds.
abbrev pub store_session : ℕ → ℕ → Session → Text → Keyspace → Keyspace
store_session now ttl sess payload m =
    let m' = set now (session_key sess.token) payload ttl m in
    if is_empty sess.client_ip then m' else set now (auth_key sess.client_ip) payload ttl m'

-- The transaction of Revoke, and the two EXPIREs of Disconnected and of Reconnected.
abbrev pub drop_session : Text → Text → Keyspace → Keyspace
drop_session token client_ip m =
    let m' = del (session_key token) m in
    if is_empty client_ip then m' else del (auth_key client_ip) m'

abbrev pub expire_both : ℕ → ℕ → Text → Text → Keyspace → Keyspace
expire_both now life client_ip token m =
    expire now (session_key token) life (expire now (auth_key client_ip) life m)

-- errors.Is(err, ErrNoSession)
abbrev pub is_no_session : Error → Bool
is_no_session no_session = true
is_no_session _ = false

module _ {env : Env} where
  -- newToken
  abbrev pub new_token : Option Text → Exec env Text
  new_token none = raise random_failed
  new_token (some t) = pure t

  unfoldable pub create : ℕ → ℕ → Option Text → Session → Exec env Session
  create now ttl random sess = do
    token ← new_token random
    let issued = stamp sess token now ttl
    redis_set (store_session now ttl issued (env.marshal issued))
    pure issued

  -- The checks of fetch on what Redis returned.
  abbrev pub decoded : ℕ → Option Session → Exec env Session
  decoded now none = raise bad_payload
  decoded now (some sess) = if ltb sess.expires now then raise no_session else pure sess

  abbrev pub found : ℕ → Option Text → Exec env Session
  found now none = raise no_session
  found now (some payload) = decoded now (env.unmarshal payload)

  unfoldable pub fetch : ℕ → Text → Exec env Session
  fetch now key = do payload ← redis_get (get now key); found now payload

  abbrev pub get_session : ℕ → Text → Exec env Session
  get_session now token = fetch now (session_key token)

  abbrev pub get_by_client_ip : ℕ → Text → Exec env Session
  get_by_client_ip now client_ip = fetch now (auth_key client_ip)

  unfoldable pub revoke : ℕ → Text → Exec env (Unit {0})
  revoke now token =
      catch (get_session now token) (λ sess. redis_set (drop_session token sess.client_ip))
        (λ e. if is_no_session e then redis_set (del (session_key token)) else raise e)

  unfoldable pub revoke_by_client_ip : ℕ → Text → Exec env (Unit {0})
  revoke_by_client_ip now client_ip =
      catch (get_by_client_ip now client_ip) (λ sess. revoke now sess.token)
        (λ e. if is_no_session e then pure tt else raise e)

  unfoldable pub disconnected : ℕ → Text → Exec env (Unit {0})
  disconnected now client_ip = do
    sess ← get_by_client_ip now client_ip
    redis_set (expire_both now disconnect_grace client_ip sess.token)

  -- time.Until(sess.Expires) is not negative: fetch has refused a session past its end.
  unfoldable pub reconnected : ℕ → Text → Exec env (Unit {0})
  reconnected now client_ip = do
    sess ← get_by_client_ip now client_ip
    redis_set (expire_both now (whole_seconds (sess.expires - now)) client_ip sess.token)
