-- ===== src/Auth/Session/Ending.antt =====
-- How a session ends early: revocation, and the grace window of a dropped tunnel.
use dvarpala.Base.{
  ℕ, ◌+◌, ◌-◌, ◌≤◌, ◌<◌, ◌≡◌, refl, ltb, if◌then◌else◌, ◌∙◌, false, Option, none, some, Text,
  is_empty, arith, text_eq_refl,
}
use dvarpala.Models.{second, Session}
use dvarpala.Platform.{
  Env, World, IsReliable, ok, err, no_session, ◌>>=◌, catch, redis_get, redis_set, keys,
}
use dvarpala.Platform.Redis.{whole_seconds, Keyspace, at, Cell, text_of, at-update_ne, at-expire}
use dvarpala.Auth.Session.{
  session_key, auth_key, drop_session, expire_both, fetch, found, get_session, get_by_client_ip,
  revoke, disconnected, reconnected, disconnect_grace,
}
use dvarpala.Auth.Session.Keys.{session_key-ne-auth_key, auth_key-ne-session_key}
use dvarpala.Auth.Session.Lifecycle.{fetch-eq-found}

module _ {env : Env} (up : IsReliable env) where
  -- fetch leaves what Redis holds.
  pub fetch-keys : (now : ℕ) (key : Text) (w : World env) → keys (fetch now key w).1 ≡ keys w
  unfolding fetch ◌>>=◌ redis_get
  fetch-keys now key w = ground (arith, up.redis_up w.redis, env.redis.view-query w.redis)

  revoke-keys :
      (now : ℕ) (token : Text) (sess : Session) (w : World env)
      → (get_session now token w).0 ≡ ok sess
      → let (r, w') = revoke now token w in
        (r ≡ ok tt) × (keys w' ≡ drop_session token sess.client_ip (keys w))
  unfolding revoke catch redis_set
  revoke-keys now token sess w h =
      let v = (get_session now token w).1 in
      ground (
        arith,
        up.redis_up v.redis,
        fetch-keys now (session_key token) w,
        env.redis.view-update (drop_session token sess.client_ip) v.redis,
      )

  -- On servers that answer: revoking a session that can be read by its token takes it away under
  -- the token and under its address, if it has one, at once and for good.
  pub revoke-get :
      (now later : ℕ) (token : Text) (sess : Session) (w : World env)
      → (get_session now token w).0 ≡ ok sess
      → let (r, w') = revoke now token w in
        (r ≡ ok tt)
        × ((get_session later token w').0 ≡ err no_session)
        × (is_empty sess.client_ip ≡ false
            → (get_by_client_ip later sess.client_ip w').0 ≡ err no_session)
  unfolding at
  revoke-get now later token sess w h =
      let w' = (revoke now token w).1 in
      let ip = sess.client_ip in
      let (r, k) = revoke-keys now token sess w h in
      let by_token = fetch-eq-found up later (session_key token) w' in
      let by_ip = fetch-eq-found up later (auth_key ip) w' in
      (
        r,
        ground (arith, text_eq_refl (session_key token), auth_key-ne-session_key ip token),
        λ ne. ground (arith, text_eq_refl (auth_key ip)),
      )

  -- The two EXPIREs seen from the address.
  at-expire_both :
      (now life later : ℕ) (ip token : Text) (m : Keyspace) (c : Cell)
      → at now (auth_key ip) m ≡ some c
      → at later (auth_key ip) (expire_both now life ip token m)
        ≡ (if ltb later (now + life) then some (record c { expires = some (now + life) }) else none)
  at-expire_both now life later ip token m c h =
      at-update_ne later (session_key token) (auth_key ip) _ _ (session_key-ne-auth_key token ip)
      ∙ at-expire now life later (auth_key ip) m c h

  disconnected-keys :
      (now : ℕ) (ip : Text) (sess : Session) (w : World env)
      → (get_by_client_ip now ip w).0 ≡ ok sess
      → let (r, w') = disconnected now ip w in
        (r ≡ ok tt) × (keys w' ≡ expire_both now disconnect_grace ip sess.token (keys w))
  unfolding disconnected ◌>>=◌ redis_set
  disconnected-keys now ip sess w h =
      let v = (get_by_client_ip now ip w).1 in
      ground (
        arith,
        up.redis_up v.redis,
        fetch-keys now (auth_key ip) w,
        env.redis.view-update (expire_both now disconnect_grace ip sess.token) v.redis,
      )

  reconnected-keys :
      (now : ℕ) (ip : Text) (sess : Session) (w : World env)
      → (get_by_client_ip now ip w).0 ≡ ok sess
      → let (r, w') = reconnected now ip w in
        (r ≡ ok tt)
        × (keys w' ≡ expire_both now (whole_seconds (sess.expires - now)) ip sess.token (keys w))
  unfolding reconnected ◌>>=◌ redis_set
  reconnected-keys now ip sess w h =
      let v = (get_by_client_ip now ip w).1 in
      ground (
        arith,
        up.redis_up v.redis,
        fetch-keys now (auth_key ip) w,
        env.redis.view-update (expire_both now (whole_seconds (sess.expires - now)) ip sess.token)
            v.redis,
      )

  -- What a readable session's key holds.
  cell_of_session :
      (now : ℕ) (key : Text) (sess : Session) (w : World env)
      → (fetch now key w).0 ≡ ok sess
      → (c : Cell) × (at now key (keys w) ≡ some c)
        × ((later : ℕ) (e : Option ℕ)
            → later ≤ sess.expires
            → (found later (text_of (some (record c { expires = e }))) w).0 ≡ ok sess)
  cell_of_session now key sess w h = go (at now key (keys w)) refl
    where
      go :
          (o : Option Cell)
          → at now key (keys w) ≡ o
          → (c : Cell) × (at now key (keys w) ≡ some c)
            × ((later : ℕ) (e : Option ℕ)
                → later ≤ sess.expires
                → (found later (text_of (some (record c { expires = e }))) w).0 ≡ ok sess)
      go none e = absurd (ground (arith, fetch-eq-found up now key w))
      go (some c) e = (c, e, λ later x le. ground (arith, fetch-eq-found up now key w))

  -- On servers that answer: when the tunnel of a session that can be read drops, the session can
  -- be read at its address within the grace window, as long as its own end has not passed, and
  -- from the window's end on it is gone.
  pub disconnected-get :
      (now later : ℕ) (ip : Text) (sess : Session) (w : World env)
      → (get_by_client_ip now ip w).0 ≡ ok sess
      → let (r, w') = disconnected now ip w in
        (r ≡ ok tt)
        × (later < now + disconnect_grace
            → later ≤ sess.expires
            → (get_by_client_ip later ip w').0 ≡ ok sess)
        × (now + disconnect_grace ≤ later → (get_by_client_ip later ip w').0 ≡ err no_session)
  disconnected-get now later ip sess w h =
      let w' = (disconnected now ip w).1 in
      let (r, k) = disconnected-keys now ip sess w h in
      let (c, e, reads) = cell_of_session now (auth_key ip) sess w h in
      let after = fetch-eq-found up later (auth_key ip) w' in
      let kept = at-expire_both now disconnect_grace later ip sess.token (keys w) c e in
      (
        r,
        λ lt le. ground (arith, reads later (some (now + disconnect_grace)) le),
        λ le. ground arith,
      )

  -- On servers that answer: after reconnected, a session that could be read at its address can be
  -- read there until a second before its own end: EXPIRE takes whole seconds.
  pub reconnected-get :
      (now later : ℕ) (ip : Text) (sess : Session) (w : World env)
      → (get_by_client_ip now ip w).0 ≡ ok sess
      → later + second ≤ sess.expires
      → let (r, w') = reconnected now ip w in
        (r ≡ ok tt) × ((get_by_client_ip later ip w').0 ≡ ok sess)
  reconnected-get now later ip sess w h lt =
      let w' = (reconnected now ip w).1 in
      let (r, k) = reconnected-keys now ip sess w h in
      let (c, e, reads) = cell_of_session now (auth_key ip) sess w h in
      let after = fetch-eq-found up later (auth_key ip) w' in
      let kept =
        at-expire_both now (whole_seconds (sess.expires - now)) later ip sess.token (keys w) c e in
      (
        r,
        ground
            (arith, reads later (some (now + (whole_seconds (sess.expires - now)))) (omega arith)),
      )
