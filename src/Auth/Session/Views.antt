-- ===== src/Auth/Session/Views.antt =====
-- What the keys of sessions give to their readers, after each change of Redis.
use dvarpala.Base.{
  ℕ, ◌+◌, ◌≤◌, ◌≡◌, refl, sym, ◌∙◌, subst, inl, inr, Option, none, some, Text, text_eq, arith,
  Bool-cases, Option-cases, text_eq→eq,
}
use dvarpala.Models.{Session}
use dvarpala.Platform.Redis.{Keyspace, del}
use dvarpala.Auth.Session.{session_key, auth_key, store_session, drop_session, expire_both}
use dvarpala.Auth.Session.Keys.{session_key-ne-auth_key}
use dvarpala.Auth.Session.Pairing.{
  session_at, Paired, store_session-auth_key, store_session-session_key, drop_session-auth_key,
  drop_session-session_key, session_at_earlier, session_at-update, session_at-other,
}
use dvarpala.Auth.Session.Shortening.{expire_both-auth_key, expire_both-session_key}
use dvarpala.Auth.Session.Readers.{Readings, hold, forget}

module _ (unmarshal : Text → Option Session) where
  -- From a time on, what the keys give is what the readers are promised.
  abbrev pub Agrees : ℕ → Keyspace → Readings → Type 0
  Agrees now m r =
      (t : ℕ)
      → now ≤ t
      → ((k : Text) → session_at unmarshal t (session_key k) m ≡ r.of_token t k)
        × ((a : Text) → session_at unmarshal t (auth_key a) m ≡ r.of_address t a)

  pub Agrees-later :
      (now later : ℕ) (m : Keyspace) (r : Readings)
      → now ≤ later
      → Agrees now m r
      → Agrees later m r
  Agrees-later now later m r le h t after = h t (omega (arith, le, after))

  pub Agrees-store_session :
      (now ttl : ℕ) (s : Session) (payload : Text) (m : Keyspace) (r : Readings)
      → unmarshal payload ≡ some s
      → Agrees now m r
      → Agrees now (store_session now ttl s payload m) (hold (now + ttl) s r)
  Agrees-store_session now ttl s payload m r codec h t le =
      let (tokens, addresses) = h t le in
      (
        λ k.
            store_session-session_key unmarshal t now ttl s payload k m ∙ rw (codec, tokens k) refl,
        λ a.
            store_session-auth_key unmarshal t now ttl s payload a m ∙ rw (codec, addresses a) refl,
      )

  pub Agrees-drop_session :
      (now : ℕ) (tok ip : Text) (m : Keyspace) (r : Readings)
      → Agrees now m r
      → Agrees now (drop_session tok ip m) (forget tok ip r)
  Agrees-drop_session now tok ip m r h t le =
      let (tokens, addresses) = h t le in
      (
        λ k. drop_session-session_key unmarshal t tok ip k m ∙ rw (tokens k) refl,
        λ a. drop_session-auth_key unmarshal t tok ip a m ∙ rw (addresses a) refl,
      )

  pub Agrees-expire_both :
      (now life : ℕ) (ip : Text) (s : Session) (m : Keyspace) (r : Readings)
      → session_at unmarshal now (auth_key ip) m ≡ some s
      → Paired unmarshal now m
      → Agrees now m r
      → Agrees now (expire_both now life ip s.token m) (hold (now + life) s r)
  Agrees-expire_both now life ip s m r held paired h t le =
      let (tokens, addresses) = h t le in
      let (under, mine, full) = paired now ip s (omega arith) held in
      (
        λ k.
            expire_both-session_key unmarshal now life t ip s.token k m s under
            ∙ rw (tokens k) refl,
        λ a.
            expire_both-auth_key unmarshal now life t ip s.token a m s held
            ∙ rw (mine, full, addresses a) refl,
      )

  session_at_later :
      (now t : ℕ) (key : Text) (m : Keyspace)
      → now ≤ t
      → session_at unmarshal now key m ≡ none
      → session_at unmarshal t key m ≡ none
  session_at_later now t key m le dead = elim (Option-cases (session_at unmarshal t key m)) [
    | inl e ↦ e
    | inr (s, e) ↦ absurd (ground (arith, session_at_earlier unmarshal now t key m le e))
  ]

  -- A token that holds no session may be deleted.
  pub Agrees-del :
      (now : ℕ) (tok : Text) (m : Keyspace) (r : Readings)
      → session_at unmarshal now (session_key tok) m ≡ none
      → Agrees now m r
      → Agrees now (del (session_key tok) m) r
  Agrees-del now tok m r dead h t le =
      let (tokens, addresses) = h t le in
      (
        λ k. elim (Bool-cases (text_eq (session_key tok) (session_key k))) [
          | inl e ↦
              let same = text_eq→eq (session_key tok) (session_key k) e in
              let gone =
                session_at_later now t (session_key k) m le
                  (subst (λ x. session_at unmarshal now x m ≡ none) same dead) in
              session_at-update unmarshal t (session_key tok) (session_key k) none m
              ∙ rw e (sym gone ∙ tokens k)
          | inr e ↦
              session_at-other unmarshal t (session_key tok) (session_key k) none m e ∙ tokens k
        ],
        λ a.
            session_at-other unmarshal t (session_key tok) (auth_key a) none m
              (session_key-ne-auth_key tok a)
            ∙ addresses a,
      )
