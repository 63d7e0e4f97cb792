-- ===== src/Auth/Session/Pairing.antt =====
-- The two keys of a session: what is under an address is under a token too.
use dvarpala.Base.{
  ℕ, ◌+◌, ◌≤◌, ◌≡◌, refl, sym, ap, ◌∙◌, subst, inl, inr, Bool, true, false, Option, none, some,
  Text, is_empty, not, ◌&&◌, text_eq, text_eq→eq, text_eq_refl, ltb, if◌then◌else◌, arith,
  Bool-cases,
}
use dvarpala.Models.{Session}
use dvarpala.Platform.Redis.{Keyspace, Cell, Value, at, get, live_at, text_of, del, update}
use dvarpala.Auth.Session.{session_key, auth_key, drop_session, store_session}
use dvarpala.Auth.Session.Keys.{
  session_key-eq, auth_key-eq, session_key-ne-auth_key, auth_key-ne-session_key,
}

-- A token that has not been used.
abbrev pub Fresh : Text → Keyspace → Type 0
Fresh tok m = m (session_key tok) ≡ none

module _ (unmarshal : Text → Option Session) where
  abbrev pub unexpired : ℕ → Option Session → Option Session
  unexpired now none = none
  unexpired now (some s) = if ltb s.expires now then none else some s

  abbrev pub valid_at : ℕ → Option Text → Option Session
  valid_at now none = none
  valid_at now (some payload) = unexpired now (unmarshal payload)

  -- The session that a key holds at a time.
  unfoldable pub session_at : ℕ → Text → Keyspace → Option Session
  session_at now key m = valid_at now (get now key m)

  -- From a time on, a session that an address holds is that address's own, and its token holds it
  -- too; the empty address holds none.
  abbrev pub Paired : ℕ → Keyspace → Type 0
  Paired now m =
      (t : ℕ) (ip : Text) (s : Session)
      → now ≤ t
      → session_at t (auth_key ip) m ≡ some s
      → (session_at t (session_key s.token) m ≡ some s) × (s.client_ip ≡ ip) × (is_empty ip ≡ false)

  pub session_at-same :
      (t u : ℕ) (key : Text) (m : Keyspace) {r s : Session}
      → session_at t key m ≡ some r
      → session_at u key m ≡ some s
      → r ≡ s
  unfolding session_at at
  session_at-same t u key m {r} {s} h k = ground arith

  pub session_at_earlier :
      (t u : ℕ) (key : Text) (m : Keyspace) {s : Session}
      → t ≤ u
      → session_at u key m ≡ some s
      → session_at t key m ≡ some s
  unfolding session_at at
  session_at_earlier t u key m {s} le h = ground arith

  -- What a write to one key leaves in another.
  pub session_at-update :
      (t : ℕ) (k j : Text) (c : Option Cell) (m : Keyspace)
      → session_at t j (update k c m)
        ≡ (if text_eq k j then valid_at t (text_of (live_at t c)) else session_at t j m)
  unfolding session_at at
  session_at-update t k j c m = ground arith

  pub session_at-other :
      (t : ℕ) (k j : Text) (c : Option Cell) (m : Keyspace)
      → text_eq k j ≡ false
      → session_at t j (update k c m) ≡ session_at t j m
  session_at-other t k j c m h = session_at-update t k j c m ∙ rw h refl

  -- What a session that is dropped leaves under an address, and under a token.
  pub drop_session-auth_key :
      (t : ℕ) (tok ip other : Text) (m : Keyspace)
      → session_at t (auth_key other) (drop_session tok ip m)
        ≡ (if not (is_empty ip) && text_eq ip other then none else session_at t (auth_key other) m)
  drop_session-auth_key t tok ip other m =
      let m' = del (session_key tok) m in
      let kept =
        session_at-other t (session_key tok) (auth_key other) none m
          (session_key-ne-auth_key tok other) in
      let over = session_at-update t (auth_key ip) (auth_key other) none m' in
      ground (arith, auth_key-eq ip other)

  pub drop_session-session_key :
      (t : ℕ) (tok ip other : Text) (m : Keyspace)
      → session_at t (session_key other) (drop_session tok ip m)
        ≡ (if text_eq tok other then none else session_at t (session_key other) m)
  drop_session-session_key t tok ip other m =
      let m' = del (session_key tok) m in
      let over = session_at-update t (session_key tok) (session_key other) none m in
      let kept =
        session_at-other t (auth_key ip) (session_key other) none m'
          (auth_key-ne-session_key ip other) in
      ground (arith, session_key-eq tok other)

  pub Paired-drop_session :
      (now : ℕ) (tok : Text) (sess : Session) (m : Keyspace)
      → session_at now (session_key tok) m ≡ some sess
      → Paired now m
      → Paired now (drop_session tok sess.client_ip m)
  Paired-drop_session now tok sess m held h t ip s le k =
      let by_ip = drop_session-auth_key t tok sess.client_ip ip m in
      let by_token = drop_session-session_key t tok sess.client_ip s.token m in
      let under : session_at t (auth_key ip) m ≡ some s = ground arith in
      let (token_held, mine, full) = h t ip s le under in
      let other : text_eq tok s.token ≡ false = elim (Bool-cases (text_eq tok s.token)) [
        | inr e ↦ e
        | inl e ↦
            let tok_same = text_eq→eq tok s.token e in
            let which : sess ≡ s =
              session_at-same now t (session_key tok) m held (rw tok_same token_held) in
            let ip_same : sess.client_ip ≡ ip = ap (λ (x : Session). x.client_ip) which ∙ mine in
            absurd (ground (arith, text_eq_refl ip))
      ] in
      (ground arith, mine, full)

  session_at-if :
      (t : ℕ) (j : Text) (b : Bool) (m n : Keyspace)
      → session_at t j (if b then m else n) ≡ (if b then session_at t j m else session_at t j n)
  session_at-if t j true m n = refl
  session_at-if t j false m n = refl

  pub Fresh-session_at :
      (t : ℕ) (tok : Text) (m : Keyspace) → Fresh tok m → session_at t (session_key tok) m ≡ none
  unfolding session_at at
  Fresh-session_at t tok m h = ground arith

  pub store_session-auth_key :
      (t now ttl : ℕ) (sess : Session) (payload other : Text) (m : Keyspace)
      → session_at t (auth_key other) (store_session now ttl sess payload m) ≡ (
          if not (is_empty sess.client_ip) && text_eq sess.client_ip other
          then (if ltb t (now + ttl) then unexpired t (unmarshal payload) else none)
          else session_at t (auth_key other) m)
  store_session-auth_key t now ttl sess payload other m =
      let c = some (record { value = Value.text payload; expires = some (now + ttl) }) in
      let m' = update (session_key sess.token) c m in
      let kept =
        session_at-other t (session_key sess.token) (auth_key other) c m
          (session_key-ne-auth_key sess.token other) in
      let over = session_at-update t (auth_key sess.client_ip) (auth_key other) c m' in
      session_at-if t (auth_key other) (is_empty sess.client_ip) m'
        (update (auth_key sess.client_ip) c m')
      ∙ ground (arith, auth_key-eq sess.client_ip other)

  pub store_session-session_key :
      (t now ttl : ℕ) (sess : Session) (payload other : Text) (m : Keyspace)
      → session_at t (session_key other) (store_session now ttl sess payload m) ≡ (
          if text_eq sess.token other
          then (if ltb t (now + ttl) then unexpired t (unmarshal payload) else none)
          else session_at t (session_key other) m)
  store_session-session_key t now ttl sess payload other m =
      let c = some (record { value = Value.text payload; expires = some (now + ttl) }) in
      let m' = update (session_key sess.token) c m in
      let over = session_at-update t (session_key sess.token) (session_key other) c m in
      let kept =
        session_at-other t (auth_key sess.client_ip) (session_key other) c m'
          (auth_key-ne-session_key sess.client_ip other) in
      session_at-if t (session_key other) (is_empty sess.client_ip) m'
        (update (auth_key sess.client_ip) c m')
      ∙ ground (arith, session_key-eq sess.token other)

  pub Paired-store_session :
      (now ttl : ℕ) (sess : Session) (payload : Text) (m : Keyspace)
      → unmarshal payload ≡ some sess
      → Fresh sess.token m
      → Paired now m
      → Paired now (store_session now ttl sess payload m)
  Paired-store_session now ttl sess payload m codec fresh h t ip s le k =
      let by_ip = store_session-auth_key t now ttl sess payload ip m in
      let by_token = store_session-session_key t now ttl sess payload s.token m in
      elim (Bool-cases (not (is_empty sess.client_ip) && text_eq sess.client_ip ip)) [
        | inl e ↦
            let mine : sess ≡ s = ground arith in
            let ip_same : sess.client_ip ≡ ip = text_eq→eq sess.client_ip ip (ground arith) in
            let tok_same : sess.token ≡ s.token = ap (λ (x : Session). x.token) mine in
            let hit : text_eq sess.token s.token ≡ true = rw tok_same (text_eq_refl s.token) in
            (
              ground arith,
              ap (λ (x : Session). x.client_ip) (sym mine) ∙ ip_same,
              subst (λ x. is_empty x ≡ false) ip_same (ground arith),
            )
        | inr e ↦
            let under : session_at t (auth_key ip) m ≡ some s = ground arith in
            let (token_held, mine, full) = h t ip s le under in
            let other : text_eq sess.token s.token ≡ false =
              elim (Bool-cases (text_eq sess.token s.token)) [
                | inr e ↦ e
                | inl e ↦
                    let same = text_eq→eq sess.token s.token e in
                    let dead = Fresh-session_at t sess.token m fresh in
                    absurd (ground (arith, ap (λ x. session_at t (session_key x) m) same))
              ] in
            (ground arith, mine, full)
      ]
