-- ===== src/Auth/Session/Refinement.antt =====
-- internal/auth/session.go keeps what its readers are promised.
use dvarpala.Base.{
  ℕ, ◌-◌, ◌+◌, ◌≤◌, ◌≡◌, refl, sym, ap, ◌∙◌, subst, Bool, true, false, Option, none, some, Text,
  if◌then◌else◌, arith,
}
use dvarpala.Models.{Session}
use dvarpala.Platform.{Env, World, IsReliable, ◌>>=◌, redis_set, keys}
use dvarpala.Platform.Runs.{Runs-keys, outcome}
use dvarpala.Platform.Redis.{whole_seconds, Cell, del, text_of, live_at, at}
use dvarpala.Auth.Session.{
  session_key, auth_key, stamp, expire_both, disconnect_grace, create, fetch, get_session,
  get_by_client_ip, revoke, revoke_by_client_ip, disconnected, reconnected,
}
use dvarpala.Auth.Session.Pairing.{session_at, valid_at}
use dvarpala.Auth.Session.Reachable.{
  Operation, creating, revoking, revoking_at, leaving, returning, perform, PairedWorld,
  Reach-Paired, SessionsSame,
}
use dvarpala.Auth.Session.Shortening.{Paired-later}
use dvarpala.Auth.Session.Running.{
  fetch-Runs, fetch-Runs_err, create-Runs, revoke-Runs, revoke-Runs_dead, revoke_by_client_ip-Runs,
  revoke_by_client_ip-Runs_dead, shortened-Runs, shortened-Runs_err,
}
use dvarpala.Auth.Session.Readers.{
  Readings, answer, nothing, hold, hold_found, hold_new, forget, forget_by, forget_found, promised,
  Along, begun, along, beside, Along-Reach,
}
use dvarpala.Auth.Session.Views.{
  Agrees, Agrees-later, Agrees-store_session, Agrees-drop_session, Agrees-expire_both, Agrees-del,
}

module _ {env : Env} (up : IsReliable env) (now : ℕ) (w : World env) (r : Readings)
    (h : Agrees env.unmarshal now (keys w) r) where
  -- From what the keys become, to the world that an operation leaves.
  abbrev Kept : World env → Readings → Type 0
  Kept v q = Agrees env.unmarshal now (keys v) q

  create-Agrees :
      (ttl : ℕ) (random : Option Text) (sess : Session)
      → Kept (create now ttl random sess w).1 (hold_new now ttl random sess r)
  unfolding create ◌>>=◌
  create-Agrees ttl none sess = h
  create-Agrees ttl (some tok) sess =
      let issued = stamp sess tok now ttl in
      subst (λ K. Agrees env.unmarshal now K (hold (now + ttl) issued r))
        (sym (Runs-keys w (create-Runs up now ttl tok sess)))
        (Agrees-store_session env.unmarshal now ttl issued (env.marshal issued) (keys w) r
          (env.unmarshal-marshal issued) h)

  del-Agrees :
      (b : Bool) (tok : Text)
      → session_at env.unmarshal now (session_key tok) (keys w) ≡ none
      → Agrees env.unmarshal now (if b then del (session_key tok) (keys w) else keys w) r
  del-Agrees true tok e = Agrees-del env.unmarshal now tok (keys w) r e h
  del-Agrees false tok e = h

  revoke-Agrees :
      (tok : Text) (o : Option Session)
      → session_at env.unmarshal now (session_key tok) (keys w) ≡ o
      → Kept (revoke now tok w).1 (forget_by tok o r)
  revoke-Agrees tok none e =
      let (b, res, runs) = revoke-Runs_dead up now tok e in
      subst (λ K. Agrees env.unmarshal now K r) (sym (Runs-keys w runs)) (del-Agrees b tok e)
  revoke-Agrees tok (some s) e =
      subst (λ K. Agrees env.unmarshal now K (forget tok s.client_ip r))
        (sym (Runs-keys w (revoke-Runs up now tok e)))
        (Agrees-drop_session env.unmarshal now tok s.client_ip (keys w) r h)

  module _ (paired : PairedWorld now w) where
    revoke_by_client_ip-Agrees :
        (ip : Text) (o : Option Session)
        → session_at env.unmarshal now (auth_key ip) (keys w) ≡ o
        → Kept (revoke_by_client_ip now ip w).1 (forget_found o r)
    revoke_by_client_ip-Agrees ip none e =
        let (res, runs) = revoke_by_client_ip-Runs_dead up now ip e in
        subst (λ K. Agrees env.unmarshal now K r) (sym (Runs-keys w runs)) h
    revoke_by_client_ip-Agrees ip (some s) e =
        let under = (paired now ip s (omega arith) e).0 in
        subst (λ K. Agrees env.unmarshal now K (forget s.token s.client_ip r))
          (sym (Runs-keys w (revoke_by_client_ip-Runs up now ip e under)))
          (Agrees-drop_session env.unmarshal now s.token s.client_ip (keys w) r h)

    shortened-Agrees :
        (ip : Text) (life : Session → ℕ) (o : Option Session)
        → session_at env.unmarshal now (auth_key ip) (keys w) ≡ o
        → Kept
            ((get_by_client_ip now ip >>= λ s. redis_set (expire_both now (life s) ip s.token)) w).1
            (hold_found (λ s. now + life s) o r)
    shortened-Agrees ip life none e =
        let (x, runs) = shortened-Runs_err up now ip life e in
        subst (λ K. Agrees env.unmarshal now K r) (sym (Runs-keys w runs)) h
    shortened-Agrees ip life (some s) e =
        subst (λ K. Agrees env.unmarshal now K (hold (now + life s) s r))
          (sym (Runs-keys w (shortened-Runs up now ip life e)))
          (Agrees-expire_both env.unmarshal now (life s) ip s (keys w) r e paired h)

    perform-Agrees : (op : Operation) → Kept (perform now op w) (promised now op r)
    unfolding disconnected reconnected
    perform-Agrees (creating ttl random sess) = create-Agrees ttl random sess
    perform-Agrees (revoking tok) =
        revoke-Agrees tok (r.of_token now tok) ((h now (omega arith)).0 tok)
    perform-Agrees (revoking_at ip) =
        revoke_by_client_ip-Agrees ip (r.of_address now ip) ((h now (omega arith)).1 ip)
    perform-Agrees (leaving ip) =
        shortened-Agrees ip (λ s. disconnect_grace) (r.of_address now ip)
          ((h now (omega arith)).1 ip)
    perform-Agrees (returning ip) =
        shortened-Agrees ip (λ s. whole_seconds (s.expires - now)) (r.of_address now ip)
          ((h now (omega arith)).1 ip)

module _ {env : Env} (up : IsReliable env) where
  begun-Agrees :
      (w : World env)
      → ((k : Text) → keys w (session_key k) ≡ none)
      → ((a : Text) → keys w (auth_key a) ≡ none)
      → Agrees env.unmarshal 0 (keys w) nothing
  unfolding session_at at
  begun-Agrees w tokens addresses t le =
      (λ k. ground (arith, tokens k), λ a. ground (arith, addresses a))

  beside-Agrees :
      (now : ℕ) (w u : World env) (r : Readings)
      → SessionsSame w u
      → Agrees env.unmarshal now (keys w) r
      → Agrees env.unmarshal now (keys u) r
  unfolding session_at at
  beside-Agrees now w u r (tokens, addresses) h t le =
      let seen = λ (o : Option Cell). valid_at env.unmarshal t (text_of (live_at t o)) in
      (λ k. ap seen (tokens k) ∙ (h t le).0 k, λ a. ap seen (addresses a) ∙ (h t le).1 a)

  Along-Agrees :
      (now : ℕ) (w : World env) (r : Readings) → Along now w r → Agrees env.unmarshal now (keys w) r
  Along-Agrees _ _ _ (begun w tokens addresses) = begun-Agrees w tokens addresses
  Along-Agrees _ _ _ (along {now} {later} {w} {r} op s le d) =
      let before = Agrees-later env.unmarshal now later (keys w) r le (Along-Agrees now w r s) in
      let paired =
        Paired-later env.unmarshal now later (keys w) le (Reach-Paired now w (Along-Reach s)) in
      perform-Agrees up later w r before paired op
  Along-Agrees _ _ _ (beside {now} {w} {r} u s same) =
      beside-Agrees now w u r same (Along-Agrees now w r s)

  fetch-answer :
      (now : ℕ) (key : Text) (w : World env) (o : Option Session)
      → session_at env.unmarshal now key (keys w) ≡ o
      → answer (fetch now key w).0 ≡ o
  fetch-answer now key w none e =
      let (x, runs) = fetch-Runs_err up now key e in
      ap answer (outcome (fetch now key) w runs refl refl).0
  fetch-answer now key w (some s) e =
      ap answer (outcome (fetch now key) w (fetch-Runs up now key e) refl refl).0

  -- On a Redis that takes every command, in whatever order sessions are created, revoked, shortened
  -- and restored from a Redis without sessions: where tokens are drawn that were not used before,
  -- every read, by token or by address, from the time of the last operation on, answers with the
  -- session that the operations have promised for that time, or with none.
  pub Along-answer :
      (now t : ℕ) (w : World env) (r : Readings)
      → Along now w r
      → now ≤ t
      → ((k : Text) → answer (get_session t k w).0 ≡ r.of_token t k)
        × ((a : Text) → answer (get_by_client_ip t a w).0 ≡ r.of_address t a)
  Along-answer now t w r s le =
      let (tokens, addresses) = Along-Agrees now w r s t le in
      (
        λ k. fetch-answer t (session_key k) w (r.of_token t k) (tokens k),
        λ a. fetch-answer t (auth_key a) w (r.of_address t a) (addresses a),
      )
