-- ===== src/Auth/Session/Reachable.antt =====
-- The states of the session store that its operations lead to, in the order of time.
use dvarpala.Base.{
  ℕ, ◌-◌, ◌≤◌, ◌≡◌, refl, sym, ap, ◌∙◌, subst, inl, inr, true, Option, none, some, Text,
  if◌then◌else◌, arith, Bool-cases,
}
use dvarpala.Models.{Session}
use dvarpala.Platform.{Env, World, ok, err, Error, ◌>>=◌, pure, raise, redis_get, redis_set, keys}
use dvarpala.Platform.Invariants.{bind-keeps, catch-keeps, redis_set-keeps}
use dvarpala.Platform.Redis.{whole_seconds, del, text_of, live_at, at}
use dvarpala.Auth.Session.{
  session_key, auth_key, stamp, store_session, drop_session, expire_both, disconnect_grace,
  is_no_session, create, fetch, get_session, get_by_client_ip, revoke, revoke_by_client_ip,
  disconnected, reconnected,
}
use dvarpala.Auth.Session.Pairing.{
  session_at, valid_at, Paired, Fresh, Paired-store_session, Paired-drop_session,
}
use dvarpala.Auth.Session.Shortening.{Paired-expire_both, Paired-del, Paired-later}

-- One operation of the store, at a time.
pub data Operation : Type 0 where
  creating : ℕ → Option Text → Session → Operation
  revoking revoking_at leaving returning : Text → Operation

module _ {env : Env} where
  pub fetch-keys_same : (now : ℕ) (key : Text) (w : World env) → keys (fetch now key w).1 ≡ keys w
  unfolding fetch ◌>>=◌ redis_get
  fetch-keys_same now key w = ground (arith, env.redis.view-query w.redis)

  -- What a read of a session says of Redis.
  pub fetch-session_at :
      (now : ℕ) (key : Text) {s : Session} (w u : World env)
      → fetch now key w ≡ (ok s, u)
      → (session_at env.unmarshal now key (keys w) ≡ some s) × (keys u ≡ keys w)
  unfolding fetch ◌>>=◌ redis_get session_at
  fetch-session_at now key {s} w u h = (ground arith, ground (arith, env.redis.view-query w.redis))

  pub fetch-none :
      (now : ℕ) (key : Text) {x : Error} (w u : World env)
      → fetch now key w ≡ (err x, u)
      → is_no_session x ≡ true
      → (session_at env.unmarshal now key (keys w) ≡ none) × (keys u ≡ keys w)
  unfolding fetch ◌>>=◌ redis_get session_at
  fetch-none now key {x} w u h e = (ground arith, ground (arith, env.redis.view-query w.redis))

  -- The keys of a world are paired.
  abbrev pub PairedWorld : ℕ → World env → Type 0
  PairedWorld now w = Paired env.unmarshal now (keys w)

  pub PairedWorld-same :
      (now : ℕ) (w u : World env) → keys u ≡ keys w → PairedWorld now w → PairedWorld now u
  PairedWorld-same now w u e h = subst (Paired env.unmarshal now) (sym e) h

  create-Paired :
      (now ttl : ℕ) (random : Option Text) (sess : Session) (w : World env)
      → ((tok : Text) → random ≡ some tok → Fresh tok (keys w))
      → PairedWorld now w
      → PairedWorld now (create now ttl random sess w).1
  unfolding create ◌>>=◌
  create-Paired now ttl none sess w fresh h = h
  create-Paired now ttl (some tok) sess w fresh h =
      let issued = stamp sess tok now ttl in
      bind-keeps (PairedWorld now) (redis_set (store_session now ttl issued (env.marshal issued)))
        (λ _. pure issued)
        (redis_set-keeps (Paired env.unmarshal now) _ w h (
          Paired-store_session env.unmarshal now ttl issued (env.marshal issued) (keys w)
            (env.unmarshal-marshal issued) (fresh tok refl) h))
        (λ _ v _ k. k)

  dropped-Paired :
      (now : ℕ) (tok : Text) (x : Error) (w v : World env)
      → get_session now tok w ≡ (err x, v)
      → PairedWorld now v
      → PairedWorld now
          ((if is_no_session x then redis_set (del (session_key tok)) else raise x) v).1
  dropped-Paired now tok x w v e h = elim (Bool-cases (is_no_session x)) [
    | inr e ↦ rw e h
    | inl d ↦
        let (dead, same) = fetch-none now (session_key tok) w v e d in
        let dead' = ap (session_at env.unmarshal now (session_key tok)) same ∙ dead in
        rw d (
          redis_set-keeps (Paired env.unmarshal now) (del (session_key tok)) v h
            (Paired-del env.unmarshal now tok (keys v) dead' h))
  ]

  pub revoke-Paired :
      (now : ℕ) (tok : Text) (w : World env)
      → PairedWorld now w
      → PairedWorld now (revoke now tok w).1
  unfolding revoke
  revoke-Paired now tok w h =
      catch-keeps (PairedWorld now) (get_session now tok) _ _
        (λ s v e.
          let (held, same) = fetch-session_at now (session_key tok) w v e in
          let held' = ap (session_at env.unmarshal now (session_key tok)) same ∙ held in
          let h' = PairedWorld-same now w v same h in
          redis_set-keeps (Paired env.unmarshal now) (drop_session tok s.client_ip) v h'
            (Paired-drop_session env.unmarshal now tok s (keys v) held' h'))
        (λ x v e. dropped-Paired now tok x w v e (
          PairedWorld-same now w v
            (ap (λ r. keys r.1) (sym e) ∙ fetch-keys_same now (session_key tok) w) h))

  unread-Paired :
      (now : ℕ) (x : Error) (v : World env)
      → PairedWorld now v
      → PairedWorld now ((if is_no_session x then pure tt else raise x) v).1
  unread-Paired now x v h = elim (Bool-cases (is_no_session x)) [ inl e ↦ rw e h | inr e ↦ rw e h ]

  revoke_by_client_ip-Paired :
      (now : ℕ) (ip : Text) (w : World env)
      → PairedWorld now w
      → PairedWorld now (revoke_by_client_ip now ip w).1
  unfolding revoke_by_client_ip
  revoke_by_client_ip-Paired now ip w h =
      catch-keeps (PairedWorld now) (get_by_client_ip now ip) _ _
        (λ s v e.
          revoke-Paired now s.token v
            (PairedWorld-same now w v (fetch-session_at now (auth_key ip) w v e).1 h))
        (λ x v e. unread-Paired now x v (
          PairedWorld-same now w v
            (ap (λ r. keys r.1) (sym e) ∙ fetch-keys_same now (auth_key ip) w) h))

  -- Both hooks set the deadlines of the session at an address anew.
  shortened-Paired :
      (now : ℕ) (ip : Text) (life : Session → ℕ) (w : World env)
      → PairedWorld now w
      → PairedWorld now
          ((get_by_client_ip now ip >>= λ s. redis_set (expire_both now (life s) ip s.token)) w).1
  shortened-Paired now ip life w h =
      bind-keeps (PairedWorld now) (get_by_client_ip now ip) _
        (PairedWorld-same now w (get_by_client_ip now ip w).1 (fetch-keys_same now (auth_key ip) w)
          h)
        (λ s v e h'.
          let (held, same) = fetch-session_at now (auth_key ip) w v e in
          redis_set-keeps (Paired env.unmarshal now) _ v h' (
            Paired-expire_both env.unmarshal now (life s) ip s (keys v)
              (ap (session_at env.unmarshal now (auth_key ip)) same ∙ held) h'))

  abbrev pub perform : ℕ → Operation → World env → World env
  perform now (creating ttl random sess) w = (create now ttl random sess w).1
  perform now (revoking tok) w = (revoke now tok w).1
  perform now (revoking_at ip) w = (revoke_by_client_ip now ip w).1
  perform now (leaving ip) w = (disconnected now ip w).1
  perform now (returning ip) w = (reconnected now ip w).1

  -- A token that is drawn has not been used.
  abbrev pub Drawn : Operation → World env → Type 0
  Drawn (creating ttl random sess) w = (tok : Text) → random ≡ some tok → Fresh tok (keys w)
  Drawn (revoking tok) w = Unit {0}
  Drawn (revoking_at ip) w = Unit {0}
  Drawn (leaving ip) w = Unit {0}
  Drawn (returning ip) w = Unit {0}

  -- What the rest of the program does to Redis leaves the keys of sessions.
  abbrev pub SessionsSame : World env → World env → Type 0
  SessionsSame w u =
      ((t : Text) → keys u (session_key t) ≡ keys w (session_key t))
      × ((ip : Text) → keys u (auth_key ip) ≡ keys w (auth_key ip))

  -- The worlds, with the times, that a Redis without sessions comes to.
  pub data Reach : ℕ → World env → Type 0 where
    nobody : (w : World env) → ((ip : Text) → keys w (auth_key ip) ≡ none) → Reach 0 w
    step :
        {now later : ℕ} {w : World env} (op : Operation)
        → Reach now w
        → now ≤ later
        → Drawn op w
        → Reach later (perform later op w)
    elsewhere :
        {now : ℕ} {w : World env} (u : World env) → Reach now w → SessionsSame w u → Reach now u

  perform-Paired :
      (now : ℕ) (op : Operation) (w : World env)
      → Drawn op w
      → PairedWorld now w
      → PairedWorld now (perform now op w)
  unfolding disconnected reconnected
  perform-Paired now (creating ttl random sess) w d h = create-Paired now ttl random sess w d h
  perform-Paired now (revoking tok) w d h = revoke-Paired now tok w h
  perform-Paired now (revoking_at ip) w d h = revoke_by_client_ip-Paired now ip w h
  perform-Paired now (leaving ip) w d h = shortened-Paired now ip (λ s. disconnect_grace) w h
  perform-Paired now (returning ip) w d h =
      shortened-Paired now ip (λ s. whole_seconds (s.expires - now)) w h

  elsewhere-Paired :
      (now : ℕ) (w u : World env) → SessionsSame w u → PairedWorld now w → PairedWorld now u
  unfolding session_at at
  elsewhere-Paired now w u (tokens, addresses) h t ip s le k =
      let under = ap (λ o. valid_at env.unmarshal t (text_of (live_at t o))) (addresses ip) in
      let (held, mine, full) = h t ip s le (sym under ∙ k) in
      (
        ap (λ o. valid_at env.unmarshal t (text_of (live_at t o))) (tokens s.token) ∙ held,
        mine,
        full,
      )

  nobody-Paired : (w : World env) → ((ip : Text) → keys w (auth_key ip) ≡ none) → PairedWorld 0 w
  unfolding session_at at
  nobody-Paired w h t ip s le k = absurd (ground (arith, h ip))

  -- Whatever the servers do, and in whatever order sessions are created, revoked, shortened and
  -- restored: where tokens are drawn that were not used before, a session that is readable under
  -- an address is the address's own, and is readable under its token as well.
  pub Reach-Paired : (now : ℕ) (w : World env) → Reach now w → PairedWorld now w
  Reach-Paired _ _ (nobody w h) = nobody-Paired w h
  Reach-Paired _ _ (step {now} {later} {w} op r le d) =
      perform-Paired later op w d
        (Paired-later env.unmarshal now later (keys w) le (Reach-Paired now w r))
  Reach-Paired _ _ (elsewhere {now} {w} u r same) =
      elsewhere-Paired now w u same (Reach-Paired now w r)
