-- ===== src/Auth/Login/Safety.antt =====
-- What has been checked when Complete hands out a session.
use dvarpala.Base.{
  ℕ, ◌+◌, ◌≡◌, refl, sym, ap, subst, ◌∙◌, ◌⊎◌, inl, inr, Bool, true, false, Option, none, some,
  Text, text_eq, is_empty, not, find, map, has_prefix, arith,
}
use dvarpala.Models.{Session, Group}
use dvarpala.Platform.{
  Env, World, Exec, Result, ok, err, domain_blocked, ◌>>=◌, ◌>>◌, catch, on_error, ignore, tables,
  keys, raise, pure,
}
use dvarpala.Platform.Rules.{bind-ok, catch-ok, if-ok, on_error-ok, redis_call-ok}
use dvarpala.Platform.Redis.{Keyspace, get, del}
use dvarpala.Platform.Database.{Tables}
use dvarpala.Services.Audit.{log}
use dvarpala.Services.Users.{Account, is_authorised, record_login}
use dvarpala.Services.Users.Standing.{Authorised, is_authorised-ok}
use dvarpala.Services.Domains.{domain_of}
use dvarpala.Services.Domains
use dvarpala.Services.Domains.AllowList.{accepts, domain_rows, allowed-ok}
use dvarpala.Auth.Session.Lifecycle.{create-ok}
use dvarpala.Auth.Session.{create, stamp}
use dvarpala.Auth.BreakGlass.{get_del}
use dvarpala.Auth.Login.{
  UserInfo, Provider, Service, state_key, state_prefix, in_list, login_session, known, get_provider,
  issued_for, consume_state, domain_allowed, admitted, admit, complete,
}

-- The state was handed out for this provider and is still pending.
abbrev pub StatePending : ℕ → Text → Text → Keyspace → Type 0
StatePending now state provider m =
    (value : Text) × (get now (state_key state) m ≡ some value)
    × (has_prefix (state_prefix provider) value ≡ true)

of_not : (b : Bool) → not b ≡ false → b ≡ true
of_not b h = ground arith

module _ {env : Env} where
  -- The domain of an address is let in: by the table of domains, or by the configured list where
  -- the service has no table.
  abbrev pub DomainAccepted : Service env → Text → Tables → Type 0
  DomainAccepted s email t =
      ((s.has_domains ≡ true)
        × ((d : Text) × (domain_of email ≡ ok d) × (accepts d (domain_rows t) ≡ true)))
      ⊎ ((s.has_domains ≡ false) × (in_list s.allowed_domains email ≡ true))

  -- A session that is due to whoever the provider has identified.
  abbrev pub Due : Service env → ℕ → UserInfo → Text → Tables → Session → Type 0
  Due s now info client_ip t sess =
      DomainAccepted s info.email t
      × ((a : Account) × (token : Text) × Authorised info.email t a
          × (sess ≡ record {
            token = token;
            user_id = a.user.id;
            email = a.user.email;
            provider = info.provider;
            groups = map (λ (g : Group). g.name) a.groups;
            client_ip = client_ip;
            issued_at = now;
            expires = now + s.session_ttl;
          }))

  get_provider-ok :
      (s : Service env) (name : Text) {p : Provider env} {w u : World env}
      → get_provider s name w ≡ (ok p, u)
      → (find (λ q. text_eq q.name name) s.providers ≡ some p) × (u ≡ w)
  unfolding get_provider
  get_provider-ok s name {p} {w} {u} h = go (find (λ q. text_eq q.name name) s.providers) h
    where
      go : (o : Option (Provider env)) → known o w ≡ (ok p, u) → (o ≡ some p) × (u ≡ w)
      go none k = cc
      go (some q) k = (cc, cc)

  issued_for-ok :
      (provider : Text) (o : Option Text) (v u : World env)
      → issued_for provider o v ≡ (ok tt, u)
      → (value : Text) × (o ≡ some value)
        × (has_prefix (state_prefix provider) value ≡ true)
        × (u ≡ v)
  issued_for-ok provider none v u h = cc
  issued_for-ok provider (some value) v u h =
      elim (if-ok (has_prefix (state_prefix provider) value) _ _ h) [
        | inl (e, k) ↦ (value, refl, e, cc)
        | inr (e, k) ↦ cc
      ]

  taken-ok :
      (now : ℕ) (state provider : Text) (w u : World env)
      → (get_del now (state_key state) >>= issued_for provider) w ≡ (ok tt, u)
      → StatePending now state provider (keys w)
        × (keys u ≡ del (state_key state) (keys w))
        × (tables u ≡ tables w)
  unfolding get_del
  taken-ok now state provider w u h =
      let (o, v, got, rest) = bind-ok (get_del now (state_key state)) (issued_for provider) h in
      let (same, k, t) = redis_call-ok (get now (state_key state)) (del (state_key state)) got in
      let (value, e, prefix, stay) = issued_for-ok provider o v u rest in
      ((value, sym same ∙ e, prefix), ap keys stay ∙ k, ap tables stay ∙ t)

  pub consume_state-ok :
      (now : ℕ) (state provider : Text) (w u : World env)
      → consume_state now state provider w ≡ (ok tt, u)
      → StatePending now state provider (keys w)
        × (keys u ≡ del (state_key state) (keys w))
        × (tables u ≡ tables w)
  unfolding consume_state
  consume_state-ok now state provider w u h = elim (if-ok (is_empty state) _ _ h) [
    | inl (e, k) ↦ cc
    | inr (e, k) ↦ taken-ok now state provider w u k
  ]

  -- A database that cannot answer lets nobody in.
  listed-ok :
      (email : Text) (w u : World env)
      → catch (Domains.allowed email) (λ b. pure b) (λ x. pure false) w ≡ (ok true, u)
      → ((d : Text) × (domain_of email ≡ ok d) × (accepts d (domain_rows (tables w)) ≡ true))
        × (tables u ≡ tables w)
  listed-ok email w u h =
      elim (catch-ok (Domains.allowed email) (λ b. pure b) (λ x. pure false) h) [
        | inl (b, v, got, rest) ↦ allowed-ok email w u (got ∙ rest)
        | inr (x, v, got, rest) ↦ cc
      ]

  domain_allowed-ok :
      (s : Service env) (email : Text) (w u : World env)
      → domain_allowed s email w ≡ (ok true, u)
      → DomainAccepted s email (tables w) × (tables u ≡ tables w)
  unfolding domain_allowed
  domain_allowed-ok s email w u h = elim (if-ok s.has_domains _ _ h) [
    | inl (e, k) ↦ let (there, t) = listed-ok email w u k in (inl (e, there), t)
    | inr (e, k) ↦ (inr (e, ap (λ x. accepted x.0) k), ap (λ x. tables x.1) (sym k))
  ]
    where
      accepted : Result Bool → Bool
      accepted (ok b) = b
      accepted (err x) = false

  -- A refused domain gets no session.
  blocked-ok :
      (report : Exec env (Unit {0})) (sess : Session) (w u : World env)
      → (report >> raise domain_blocked) w ≡ (ok sess, u)
      → ⊥
  blocked-ok report sess w u h =
      let (x, v, a, rest) = bind-ok report (λ _. raise domain_blocked) h in cc

  -- The session that comes past the check of the domain.
  admitted-ok :
      (s : Service env) (now : ℕ) (random : Option Text) (provider client_ip : Text)
      (info : UserInfo) (sess : Session) (w u : World env)
      → admitted s now random provider client_ip info w ≡ (ok sess, u)
      → (a : Account) × (token : Text) × Authorised info.email (tables w) a
        × (sess ≡ stamp (login_session a info client_ip) token now s.session_ttl)
  unfolding admitted
  admitted-ok s now random provider client_ip info sess w u h =
      let (a, v, got, r) = bind-ok (on_error (is_authorised info.email) _) _ h in
      let (standing, t, k) =
        is_authorised-ok info.email (on_error-ok (is_authorised info.email) _ got) in
      let make = create now s.session_ttl random (login_session a info client_ip) in
      let (made, v', new, r') = bind-ok (on_error make _) _ r in
      let (token, same) =
        create-ok now s.session_ttl random (login_session a info client_ip) made v v'
          (on_error-ok make _ new) in
      let (x, y, noted, r'') = bind-ok (ignore (record_login now a.user.id)) _ r' in
      let (x', y', written, last) = bind-ok (log now _) _ r'' in (a, token, standing, (cc))

  -- The steps of admit after the domain was let in.
  admit-ok :
      (s : Service env) (now : ℕ) (random : Option Text) (provider client_ip : Text)
      (info : UserInfo) (sess : Session) (w u : World env)
      → admit s now random provider client_ip info w ≡ (ok sess, u)
      → Due s now info client_ip (tables w) sess
  unfolding admit
  admit-ok s now random provider client_ip info sess w u h =
      let (b, v, asked, rest) = bind-ok (domain_allowed s info.email) _ h in
      elim (if-ok (not b) _ _ rest) [
        | inl (e, k) ↦ absurd (blocked-ok _ sess v u k)
        | inr (e, k) ↦
            let (accepted, t) =
              domain_allowed-ok s info.email w v (asked ∙ ap (λ x. (ok x, v)) (of_not b e)) in
            let (a, token, standing, same) =
              admitted-ok s now random provider client_ip info sess v u k in
            (accepted, (a, token, subst (λ x. Authorised info.email x a) t standing, same))
      ]

  -- Whatever the servers do: whoever gets a session from Complete has shown a pending state token
  -- of the provider, which was then deleted; has been identified by the provider after that; has
  -- an address whose domain is let in by what the tables held after the provider's answer, and in
  -- them an active account. The session names that account, its groups and the address of the
  -- tunnel, and ends with its lifetime.
  pub complete_sound :
      (s : Service env) (now : ℕ) (random : Option Text) (provider code state client_ip : Text)
      (sess : Session) (w u : World env)
      → complete s now random provider code state client_ip w ≡ (ok sess, u)
      → (p : Provider env) × (find (λ q. text_eq q.name provider) s.providers ≡ some p)
        × StatePending now state provider (keys w)
        × ((info : UserInfo) × (asked : World env) × (answered : World env) × (keys asked
              ≡ del (state_key state) (keys w))
            × (tables asked ≡ tables w)
            × (p.exchange now code asked ≡ (ok info, answered))
            × Due s now info client_ip (tables answered) sess)
  unfolding complete
  complete_sound s now random provider code state client_ip sess w u h =
      let (p, a, found, r) = bind-ok (on_error (get_provider s provider) _) _ h in
      let (which, same) =
        get_provider-ok s provider (on_error-ok (get_provider s provider) _ found) in
      let (x, b, state_ok, r') = bind-ok (on_error (consume_state now state provider) _) _ r in
      let (pending, k, t) =
        consume_state-ok now state provider a b
          (on_error-ok (consume_state now state provider) _ state_ok) in
      let (info, c, answer, r'') = bind-ok (on_error (p.exchange now code) _) _ r' in
      let due = admit-ok s now random provider client_ip info sess c u r'' in
      (
        p,
        which,
        subst (λ x. StatePending now state provider (keys x)) same pending,
        (
          info,
          b,
          c,
          k ∙ ap (λ x. del (state_key state) (keys x)) same,
          t ∙ ap tables same,
          on_error-ok (p.exchange now code) _ answer,
          due,
        ),
      )
