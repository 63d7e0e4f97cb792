-- ===== src/Auth/Session/Lifecycle.antt =====
-- What a session's operations make readable, and until when.
use dvarpala.Base.{ℕ, ◌+◌, ◌≤◌, ◌<◌, ◌≡◌, false, Option, some, Text, is_empty, arith, text_eq_refl}
use dvarpala.Models.{Session}
use dvarpala.Platform.{
  Env, World, IsReliable, ok, err, no_session, ◌>>=◌, redis_get, redis_set, keys,
}
use dvarpala.Platform.Rules.{bind-ok}
use dvarpala.Platform.Redis.{at, get}
use dvarpala.Auth.Session.{
  new_token, session_key, auth_key, stamp, store_session, create, fetch, found, get_session,
  get_by_client_ip,
}
use dvarpala.Auth.Session.Keys.{auth_key-ne-session_key}

module _ {env : Env} where
  -- Whatever the servers hold, and whether or not they answer: a session that is read has not
  -- passed the end that is written in it.
  pub fetch-le-expires :
      (now : ℕ) (key : Text) (sess : Session) (w : World env)
      → (fetch now key w).0 ≡ ok sess
      → now ≤ sess.expires
  unfolding fetch ◌>>=◌ redis_get
  fetch-le-expires now key sess w h = ground arith

  -- What a session that is created says.
  pub create-ok :
      (now ttl : ℕ) (random : Option Text) (sess r : Session) (w u : World env)
      → create now ttl random sess w ≡ (ok r, u)
      → (token : Text) × (r ≡ stamp sess token now ttl)
  unfolding create
  create-ok now ttl random sess r w u h =
      let (token, v, a, rest) = bind-ok (new_token random) _ h in
      let (x, y, b, last) = bind-ok (redis_set _) _ rest in (token, ground arith)

module _ {env : Env} (up : IsReliable env) where
  -- On reliable servers fetch returns what the checks make of the key's value.
  pub fetch-eq-found :
      (now : ℕ) (key : Text) (w : World env)
      → (fetch now key w).0 ≡ (found now (get now key (keys w)) w).0
  unfolding fetch ◌>>=◌ redis_get
  fetch-eq-found now key w = ground (arith, up.redis_up w.redis)

  pub create-keys :
      (now ttl : ℕ) (token : Text) (sess : Session) (w : World env)
      → let issued = stamp sess token now ttl in
        let (r, w') = create now ttl (some token) sess w in
        (r ≡ ok issued) × (keys w' ≡ store_session now ttl issued (env.marshal issued) (keys w))
  unfolding create ◌>>=◌ redis_set
  create-keys now ttl token sess w =
      let f =
        store_session now ttl (stamp sess token now ttl) (env.marshal (stamp sess token now ttl)) in
      ground (arith, up.redis_up w.redis, env.redis.view-update f w.redis)

  -- On servers that answer: a session that is created is found by its token and, if it has one, by
  -- its address, until its lifetime is over, and by neither from then on.
  pub create-get :
      (now ttl later : ℕ) (token : Text) (sess : Session) (w : World env)
      → let issued = stamp sess token now ttl in
        let (r, w') = create now ttl (some token) sess w in
        (r ≡ ok issued)
        × (later < now + ttl → (get_session later token w').0 ≡ ok issued)
        × (later < now + ttl
            → is_empty sess.client_ip ≡ false
            → (get_by_client_ip later sess.client_ip w').0 ≡ ok issued)
        × (now + ttl ≤ later → (get_session later token w').0 ≡ err no_session)
        × (now + ttl ≤ later
            → is_empty sess.client_ip ≡ false
            → (get_by_client_ip later sess.client_ip w').0 ≡ err no_session)
  unfolding at
  create-get now ttl later token sess w =
      let issued = stamp sess token now ttl in
      let w' = (create now ttl (some token) sess w).1 in
      let ip = sess.client_ip in
      let (r, k) = create-keys now ttl token sess w in
      let by_token = fetch-eq-found later (session_key token) w' in
      let by_ip = fetch-eq-found later (auth_key ip) w' in
      let codec = env.unmarshal-marshal issued in
      (
        r,
        λ lt. ground (arith, text_eq_refl (session_key token), auth_key-ne-session_key ip token),
        λ lt ne. ground (arith, text_eq_refl (auth_key ip)),
        λ lt. ground (arith, text_eq_refl (session_key token), auth_key-ne-session_key ip token),
        λ lt ne. ground (arith, text_eq_refl (auth_key ip)),
      )
