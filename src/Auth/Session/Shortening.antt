-- ===== src/Auth/Session/Shortening.antt =====
-- The two keys of a session when their deadlines are set anew.
use dvarpala.Base.{
  ℕ, ◌+◌, ◌≤◌, ◌≡◌, refl, sym, ap, ◌∙◌, subst, inl, inr, true, false, Option, none, some, Text,
  is_empty, text_eq, text_eq→eq, text_eq_refl, ltb, if◌then◌else◌, arith, Bool-cases,
}
use dvarpala.Models.{Session}
use dvarpala.Platform.Redis.{Keyspace, at, del, expire, expire_cell}
use dvarpala.Auth.Session.{session_key, auth_key, expire_both}
use dvarpala.Auth.Session.Keys.{
  session_key-eq, auth_key-eq, session_key-ne-auth_key, auth_key-ne-session_key,
}
use dvarpala.Auth.Session.Pairing.{
  unexpired, session_at, Paired, session_at-same, session_at_earlier, session_at-update,
  session_at-other,
}

module _ (unmarshal : Text → Option Session) where
  expire_self :
      (now life t : ℕ) (k : Text) (m : Keyspace) (s : Session)
      → session_at unmarshal now k m ≡ some s
      → session_at unmarshal t k (expire now k life m)
        ≡ (if ltb t (now + life) then unexpired unmarshal t (some s) else none)
  unfolding session_at at
  expire_self now life t k m s h = ground (arith, text_eq_refl k)

  session_at-expire :
      (now life t : ℕ) (k j : Text) (m : Keyspace) (s : Session)
      → session_at unmarshal now k m ≡ some s
      → session_at unmarshal t j (expire now k life m) ≡ (
          if text_eq k j
          then (if ltb t (now + life) then unexpired unmarshal t (some s) else none)
          else session_at unmarshal t j m)
  session_at-expire now life t k j m s h = elim (Bool-cases (text_eq k j)) [
    | inr e ↦ session_at-other unmarshal t k j _ m e ∙ rw e refl
    | inl e ↦
        subst
          (λ x. session_at unmarshal t x (expire now k life m) ≡ (
            if text_eq k x
            then (if ltb t (now + life) then unexpired unmarshal t (some s) else none)
            else session_at unmarshal t x m))
          (text_eq→eq k j e) (expire_self now life t k m s h ∙ rw (text_eq_refl k) refl)
  ]

  pub expire_both-auth_key :
      (now life t : ℕ) (ip tok other : Text) (m : Keyspace) (s : Session)
      → session_at unmarshal now (auth_key ip) m ≡ some s
      → session_at unmarshal t (auth_key other) (expire_both now life ip tok m) ≡ (
          if text_eq ip other
          then (if ltb t (now + life) then unexpired unmarshal t (some s) else none)
          else session_at unmarshal t (auth_key other) m)
  expire_both-auth_key now life t ip tok other m s h =
      let m' = expire now (auth_key ip) life m in
      let c = expire_cell (now + life) (at now (session_key tok) m') in
      session_at-other unmarshal t (session_key tok) (auth_key other) c m'
        (session_key-ne-auth_key tok other)
      ∙ session_at-expire now life t (auth_key ip) (auth_key other) m s h
      ∙ rw (auth_key-eq ip other) refl

  pub expire_both-session_key :
      (now life t : ℕ) (ip tok other : Text) (m : Keyspace) (s : Session)
      → session_at unmarshal now (session_key tok) m ≡ some s
      → session_at unmarshal t (session_key other) (expire_both now life ip tok m) ≡ (
          if text_eq tok other
          then (if ltb t (now + life) then unexpired unmarshal t (some s) else none)
          else session_at unmarshal t (session_key other) m)
  expire_both-session_key now life t ip tok other m s h =
      let m' = expire now (auth_key ip) life m in
      let c = expire_cell (now + life) (at now (auth_key ip) m) in
      let kept = λ (u : ℕ) (x : Text).
        session_at-other unmarshal u (auth_key ip) (session_key x) c m
          (auth_key-ne-session_key ip x) in
      session_at-expire now life t (session_key tok) (session_key other) m' s (kept now tok ∙ h)
      ∙ rw (session_key-eq tok other, kept t other) refl

  pub Paired-expire_both :
      (now life : ℕ) (ip : Text) (sess : Session) (m : Keyspace)
      → session_at unmarshal now (auth_key ip) m ≡ some sess
      → Paired unmarshal now m
      → Paired unmarshal now (expire_both now life ip sess.token m)
  Paired-expire_both now life ip sess m held h t other s le k =
      let (token_now, mine, full) = h now ip sess (ground arith) held in
      let by_ip = expire_both-auth_key now life t ip sess.token other m sess held in
      let by_token = expire_both-session_key now life t ip sess.token s.token m sess token_now in
      elim (Bool-cases (text_eq ip other)) [
        | inl e ↦
            let which : sess ≡ s = ground arith in
            let same : ip ≡ other = text_eq→eq ip other e in
            let hit : text_eq sess.token s.token ≡ true =
              ap (λ (x : Session). text_eq sess.token x.token) (sym which)
              ∙ text_eq_refl sess.token in
            (
              ground arith,
              ap (λ (x : Session). x.client_ip) (sym which) ∙ mine ∙ same,
              subst (λ x. is_empty x ≡ false) same full,
            )
        | inr e ↦
            let under : session_at unmarshal t (auth_key other) m ≡ some s = ground arith in
            let (token_held, ours, filled) = h t other s le under in
            let apart : text_eq sess.token s.token ≡ false =
              elim (Bool-cases (text_eq sess.token s.token)) [
                | inr d ↦ d
                | inl d ↦
                    let tok_same = text_eq→eq sess.token s.token d in
                    let which : sess ≡ s =
                      session_at-same unmarshal now t (session_key sess.token) m token_now
                        (rw tok_same token_held) in
                    let ip_same : ip ≡ other =
                      sym mine ∙ ap (λ (x : Session). x.client_ip) which ∙ ours in
                    absurd (ground (arith, ap (text_eq ip) ip_same, text_eq_refl ip))
              ] in
            (ground arith, ours, filled)
      ]

  pub Paired-del :
      (now : ℕ) (tok : Text) (m : Keyspace)
      → session_at unmarshal now (session_key tok) m ≡ none
      → Paired unmarshal now m
      → Paired unmarshal now (del (session_key tok) m)
  Paired-del now tok m dead h t ip s le k =
      let under : session_at unmarshal t (auth_key ip) m ≡ some s =
        sym (
          session_at-other unmarshal t (session_key tok) (auth_key ip) none m
            (session_key-ne-auth_key tok ip))
        ∙ k in
      let (token_held, ours, filled) = h t ip s le under in
      let over = session_at-update unmarshal t (session_key tok) (session_key s.token) none m in
      let earlier = session_at_earlier unmarshal now t (session_key s.token) m le token_held in
      let apart : text_eq tok s.token ≡ false = elim (Bool-cases (text_eq tok s.token)) [
        | inr d ↦ d
        | inl d ↦
            let gone =
              ap (λ x. session_at unmarshal now (session_key x) m) (text_eq→eq tok s.token d) in
            absurd (ground arith)
      ] in
      (ground (arith, session_key-eq tok s.token), ours, filled)

  pub Paired-later :
      (now later : ℕ) (m : Keyspace)
      → now ≤ later
      → Paired unmarshal now m
      → Paired unmarshal later m
  Paired-later now later m le h t ip s after k = h t ip s (ground arith) k
