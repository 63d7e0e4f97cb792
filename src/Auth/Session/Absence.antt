-- ===== src/Auth/Session/Absence.antt =====
-- Sessions that are gone: what revoking takes away, and what it leaves as it was.
use dvarpala.Base.{
  ℕ, ◌≤◌, ◌≡◌, refl, sym, ap, ◌∙◌, subst, inl, inr, Bool, true, false, Option, none, some, Text,
  is_empty, text_eq_refl, if◌then◌else◌, arith, Option-cases,
}
use dvarpala.Models.{Session}
use dvarpala.Platform.{
  Env, World, IsReliable, Result, ok, err, Error, ◌>>=◌, pure, raise, redis_get, redis_set, keys,
}
use dvarpala.Platform.Invariants.{catch-keeps, redis_set-keeps}
use dvarpala.Platform.Rules.{catch-after_ok, either}
use dvarpala.Platform.Redis.{Keyspace, del}
use dvarpala.Auth.Session.{
  session_key, auth_key, drop_session, is_no_session, fetch, get_session, get_by_client_ip, revoke,
  revoke_by_client_ip,
}
use dvarpala.Auth.Session.Pairing.{
  session_at, session_at_earlier, session_at-update, drop_session-auth_key,
  drop_session-session_key,
}
use dvarpala.Auth.Session.Reachable.{PairedWorld, fetch-session_at, fetch-keys_same}

module _ (unmarshal : Text → Option Session) where
  -- Every session that one state of Redis holds, another holds.
  abbrev pub Within : Keyspace → Keyspace → Type 0
  Within m' m =
      (t : ℕ) (key : Text) (s : Session)
      → session_at unmarshal t key m' ≡ some s
      → session_at unmarshal t key m ≡ some s

  pub Within-del : (k : Text) (m : Keyspace) → Within (del k m) m
  Within-del k m t key s h = ground (arith, session_at-update unmarshal t k key none m)

  pub Within-drop_session : (tok ip : Text) (m : Keyspace) → Within (drop_session tok ip m) m
  Within-drop_session tok ip m = pick (is_empty ip)
    where
      pick :
          (b : Bool)
          → Within
              (if b then del (session_key tok) m else del (auth_key ip) (del (session_key tok) m))
              m
      pick true t key s h = Within-del (session_key tok) m t key s h
      pick false t key s h =
          Within-del (session_key tok) m t key s
            (Within-del (auth_key ip) (del (session_key tok) m) t key s h)

  pub absent_later :
      (now later : ℕ) (key : Text) (m : Keyspace)
      → now ≤ later
      → session_at unmarshal now key m ≡ none
      → session_at unmarshal later key m ≡ none
  absent_later now later key m le h = elim (Option-cases (session_at unmarshal later key m)) [
    | inl e ↦ e
    | inr (s, e) ↦ absurd (ground (arith, session_at_earlier unmarshal now later key m le e))
  ]

  pub absent-Within :
      (t : ℕ) (key : Text) (m' m : Keyspace)
      → Within m' m
      → session_at unmarshal t key m ≡ none
      → session_at unmarshal t key m' ≡ none
  absent-Within t key m' m within h = elim (Option-cases (session_at unmarshal t key m')) [
    | inl e ↦ e
    | inr (s, e) ↦ absurd (ground (arith, within t key s e))
  ]

module _ {env : Env} where
  abbrev pub WithinWorld : World env → World env → Type 0
  WithinWorld u w = Within env.unmarshal (keys u) (keys w)

  fetched-Within :
      (now : ℕ) (key : Text) {r : Result Session} (w v : World env)
      → fetch now key w ≡ (r, v)
      → keys v ≡ keys w
  fetched-Within now key w v e = ap (λ r. keys r.1) (sym e) ∙ fetch-keys_same now key w

  -- Revoking adds nothing, whatever the servers do.
  pub revoke-Within : (now : ℕ) (tok : Text) (w : World env) → WithinWorld (revoke now tok w).1 w
  unfolding revoke
  revoke-Within now tok w =
      let P = λ (u : World env). WithinWorld u w in
      catch-keeps P (get_session now tok) _ _
        (λ s v e.
          let same = fetched-Within now (session_key tok) w v e in
          redis_set-keeps (λ m. Within env.unmarshal m (keys w)) (drop_session tok s.client_ip) v
            (subst (λ m. Within env.unmarshal m (keys w)) (sym same) (λ t key r h. h))
            (subst (λ m. Within env.unmarshal (drop_session tok s.client_ip m) (keys w)) (sym same)
              (Within-drop_session env.unmarshal tok s.client_ip (keys w))))
        (λ x v e.
          let same = fetched-Within now (session_key tok) w v e in
          let kept : P v =
            subst (λ m. Within env.unmarshal m (keys w)) (sym same) (λ t key r h. h) in
          either (λ r. P r.1) (is_no_session x) (redis_set (del (session_key tok)))
            (raise {A = Unit {0}} x) {w = v}
            (redis_set-keeps (λ m. Within env.unmarshal m (keys w)) (del (session_key tok)) v kept
              (subst (λ m. Within env.unmarshal (del (session_key tok) m) (keys w)) (sym same)
                (Within-del env.unmarshal (session_key tok) (keys w))))
            kept)

  pub revoke_by_client_ip-Within :
      (now : ℕ) (ip : Text) (w : World env) → WithinWorld (revoke_by_client_ip now ip w).1 w
  unfolding revoke_by_client_ip
  revoke_by_client_ip-Within now ip w =
      let P = λ (u : World env). WithinWorld u w in
      catch-keeps P (get_by_client_ip now ip) _ _
        (λ s v e.
          let same = fetched-Within now (auth_key ip) w v e in
          subst (λ m. Within env.unmarshal (keys (revoke now s.token v).1) m) same
            (revoke-Within now s.token v))
        (λ x v e.
          let same = fetched-Within now (auth_key ip) w v e in
          let kept : P v =
            subst (λ m. Within env.unmarshal m (keys w)) (sym same) (λ t key r h. h) in
          either (λ r. P r.1) (is_no_session x) (pure tt) (raise {A = Unit {0}} x) {w = v} kept
            kept)

module _ {env : Env} (up : IsReliable env) where
  redis_set-keys : (f : Keyspace → Keyspace) (w : World env) → keys (redis_set f w).1 ≡ f (keys w)
  unfolding redis_set
  redis_set-keys f w = env.redis.view-update f w.redis (up.redis_up w.redis)

  -- What a read returns is what the key holds.
  pub fetch-present :
      (now : ℕ) (key : Text) (s : Session) (w : World env)
      → session_at env.unmarshal now key (keys w) ≡ some s
      → (fetch now key w).0 ≡ ok s
  unfolding fetch ◌>>=◌ redis_get session_at
  fetch-present now key s w h = ground (arith, up.redis_up w.redis)

  pub fetch-absent :
      (now : ℕ) (key : Text) (w : World env)
      → session_at env.unmarshal now key (keys w) ≡ none
      → (x : Error) × ((fetch now key w).0 ≡ err x)
  fetch-absent now key w h = go (fetch now key w) refl
    where
      go :
          (r : Result Session × World env)
          → fetch now key w ≡ r
          → (x : Error) × ((fetch now key w).0 ≡ err x)
      go (err x, v) e = (x, ap (λ r. r.0) e)
      go (ok s, v) e = absurd (ground (arith, (fetch-session_at now key w v e).0))

  -- Revoking a session that its token holds drops both its keys.
  pub revoke-dropped :
      (now : ℕ) (tok : Text) (s : Session) (w : World env)
      → session_at env.unmarshal now (session_key tok) (keys w) ≡ some s
      → keys (revoke now tok w).1 ≡ drop_session tok s.client_ip (keys w)
  unfolding revoke
  revoke-dropped now tok s w h =
      let m = get_session now tok in
      let v = (m w).1 in
      let e : m w ≡ (ok s, v) = ap (λ r. (r, v)) (fetch-present now (session_key tok) s w h) in
      ap (λ r. keys r.1) (catch-after_ok m _ _ e)
      ∙ redis_set-keys (drop_session tok s.client_ip) v
      ∙ ap (drop_session tok s.client_ip) (fetch-keys_same now (session_key tok) w)

  -- After Revoke its token holds nothing.
  pub revoke-absent :
      (now : ℕ) (tok : Text) (w : World env)
      → session_at env.unmarshal now (session_key tok) (keys (revoke now tok w).1) ≡ none
  revoke-absent now tok w =
      elim (Option-cases (session_at env.unmarshal now (session_key tok) (keys w))) [
        | inl e ↦
            absent-Within env.unmarshal now (session_key tok) (keys (revoke now tok w).1) (keys w)
              (revoke-Within now tok w) e
        | inr (s, e) ↦
            ap (session_at env.unmarshal now (session_key tok)) (revoke-dropped now tok s w e)
            ∙ ground (
              arith,
              drop_session-session_key env.unmarshal now tok s.client_ip tok (keys w),
              text_eq_refl tok,
            )
      ]

  -- After RevokeByClientIP its address holds nothing, where the keys are paired.
  pub revoke_by_client_ip-absent :
      (now : ℕ) (ip : Text) (w : World env)
      → PairedWorld now w
      → session_at env.unmarshal now (auth_key ip) (keys (revoke_by_client_ip now ip w).1) ≡ none
  unfolding revoke_by_client_ip
  revoke_by_client_ip-absent now ip w h =
      let key = auth_key ip in
      let m = get_by_client_ip now ip in
      let v = (m w).1 in
      let same = fetch-keys_same now key w in
      elim (Option-cases (session_at env.unmarshal now key (keys w))) [
        | inl e ↦
            absent-Within env.unmarshal now key _ (keys w) (revoke_by_client_ip-Within now ip w) e
        | inr (s, e) ↦
            let (held, mine, full) = h now ip s (ground arith) e in
            let got : m w ≡ (ok s, v) = ap (λ r. (r, v)) (fetch-present now key s w e) in
            let held' = ap (session_at env.unmarshal now (session_key s.token)) same ∙ held in
            ap (λ r. session_at env.unmarshal now key (keys r.1)) (catch-after_ok m _ _ got)
            ∙ ap (session_at env.unmarshal now key) (revoke-dropped now s.token s v held')
            ∙ drop_session-auth_key env.unmarshal now s.token s.client_ip ip (keys v)
            ∙ rw (mine, full, text_eq_refl ip) refl
      ]
