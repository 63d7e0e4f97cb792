-- ===== src/Vpn/Access/Checks.antt =====
-- internal/api/vpnapi/vpn.go: the steps of the connect hook, why each of them fails, and what each
-- reply rests on.
use dvarpala.Base.{
  ◌≤◌, true, ℕ, ◌≡◌, ◌≢◌, ap, ◌∙◌, subst, ◌⊎◌, inl, inr, true, false, some, Text, List, arith,
  Bool-cases,
}
use dvarpala.Models.{Session}
use dvarpala.Platform.{
  Result, no_session, Env, World, ok, err, Error, no_session, database_failed, ◌>>=◌, redis_get,
  redis_set, select, tables,
}
use dvarpala.Platform.Rules.{select-ok, bind-ok}
use dvarpala.Services.Audit.{Entry}
use dvarpala.Services.Audit.Writing.{log-ok}
use dvarpala.Services.Users.{Account, account_of, normalise_email, is_authorised, get_user_by_email}
use dvarpala.Services.Users.Standing.{Authorised, get_user_by_email-ok}
use dvarpala.Services.Permissions.{AccessGrant, user_grants, resources_for_user}
use dvarpala.Auth.Session.{get_by_client_ip, fetch, reconnected, is_no_session, auth_key}
use dvarpala.Auth.Login.{client_reconnected}
use dvarpala.Vpn.Access.{
  AccessResponse, okay, internal_error, refused, same_identity, to_routes, granted, Reply, report,
}

pub is_no_session_eq : (x : Error) → is_no_session x ≡ true → x ≡ no_session
is_no_session_eq x h = ground arith

pub is_no_session_ne : (x : Error) → is_no_session x ≡ false → x ≢ no_session
is_no_session_ne x h e = cc

module _ {env : Env} where
  pub fetch-tables : (now : ℕ) (key : Text) (w : World env) → tables (fetch now key w).1 ≡ tables w
  unfolding fetch ◌>>=◌ redis_get
  fetch-tables now key w = ground arith

  pub client_reconnected-tables :
      (now : ℕ) (ip : Text) (w : World env) → tables (client_reconnected now ip w).1 ≡ tables w
  unfolding reconnected ◌>>=◌ redis_set
  client_reconnected-tables now ip w = ground (arith, fetch-tables now (auth_key ip) w)

  pub report-ok : (now : ℕ) (e : Entry) (r : Reply) (v : World env) → (report now e r v).0 ≡ ok r
  unfolding ◌>>=◌
  report-ok now e r v = ground (arith, log-ok now e v)

  pub resources_for_user-ok :
      (email : Text) (a : Account) (gs : List AccessGrant) (w u : World env)
      → resources_for_user email w ≡ (ok gs, u)
      → account_of (normalise_email email) (tables w) ≡ some a
      → gs ≡ user_grants a.user.id (tables w)
  unfolding resources_for_user
  resources_for_user-ok email a gs w u h same =
      let (b, v, got, r) = bind-ok (get_user_by_email email) _ h in
      let (there, t, k) = get_user_by_email-ok email got in
      let (e, t', k') = select-ok (user_grants b.user.id) r in
      let who : b ≡ a = cc in
      e ∙ ap (user_grants b.user.id) t ∙ ap (λ (x : Account). user_grants x.user.id (tables w)) who

  -- A failure to read the grants of an account that is there is one of the database.
  pub resources_for_user_fails :
      (email : Text) (a : Account) {x : Error} (w u : World env)
      → resources_for_user email w ≡ (err x, u)
      → account_of (normalise_email email) (tables w) ≡ some a
      → x ≡ database_failed
  unfolding resources_for_user get_user_by_email ◌>>=◌ select
  resources_for_user_fails email a {x} w u h there = ground arith

  -- The account check fails: the database does not answer, or no active account has the address.
  abbrev pub Unauthorised : Text → World env → Type 0
  Unauthorised email w =
      (v : World env) × (tables v ≡ tables w)
      × (((is_authorised email v).0 ≡ err database_failed)
          ⊎ ((a : Account) → ¬ Authorised email (tables w) a))

  is_authorised_fails :
      (email : Text) {x : Error} (w u : World env)
      → is_authorised email w ≡ (err x, u)
      → (x ≡ database_failed) ⊎ ((a : Account) → ¬ Authorised email (tables w) a)
  unfolding is_authorised get_user_by_email ◌>>=◌ select
  is_authorised_fails email {x} w u h = elim (Bool-cases (env.database.up w.database)) [
    | inr down ↦ inl (ground arith)
    | inl up ↦ inr (λ a (there, active). absurd (ground arith))
  ]

  pub is_authorised-Unauthorised :
      (email : Text) {x : Error} (w v u : World env)
      → tables v ≡ tables w
      → is_authorised email v ≡ (err x, u)
      → Unauthorised email w
  is_authorised-Unauthorised email w v u t e = (
    v,
    t,
    elim (is_authorised_fails email v u e) [
      | inl down ↦ inl (ap (λ r. r.0) e ∙ ap (λ y. err y) down)
      | inr closed ↦ inr (subst (λ x. (a : Account) → ¬ Authorised email x a) t closed)
    ],
  )

  -- Access is due to the client at an address: there is a session at it that has not ended, for
  -- whom the certificate is; its account is active; and the routes are those of its grants.
  abbrev pub Due : ℕ → Text → Text → World env → AccessResponse → Type 0
  Due now client_ip common_name w r =
      (sess : Session) × ((get_by_client_ip now client_ip w).0 ≡ ok sess)
      × (now ≤ sess.expires)
      × (same_identity common_name sess.email ≡ true)
      × ((a : Account) × Authorised sess.email (tables w) a
          × (r ≡ granted sess (to_routes env.split_ipv6 (user_grants a.user.id (tables w)))))

  -- Nobody is let on: Redis has no session at the address that has not ended; or the certificate is
  -- for somebody else; or the account check failed, for want of an active account or of an answer
  -- of the database.
  abbrev pub Unentitled : ℕ → Text → Text → World env → Type 0
  Unentitled now ip cn w =
      ((get_by_client_ip now ip w).0 ≡ err no_session)
      ⊎ ((sess : Session) × ((get_by_client_ip now ip w).0 ≡ ok sess)
          × ((same_identity cn sess.email ≡ false)
              ⊎ ((same_identity cn sess.email ≡ true) × Unauthorised sess.email w)))

  -- The servers failed: the session could not be read, for another reason than that there is none;
  -- or the grants of a person who may be let on could not be.
  abbrev pub Failed : ℕ → Text → Text → World env → Type 0
  Failed now ip cn w =
      ((x : Error) × ((get_by_client_ip now ip w).0 ≡ err x) × (x ≢ no_session))
      ⊎ ((sess : Session) × (a : Account) × ((get_by_client_ip now ip w).0 ≡ ok sess)
          × (same_identity cn sess.email ≡ true)
          × Authorised sess.email (tables w) a
          × ((v : World env) × (tables v ≡ tables w)
              × ((resources_for_user sess.email v).0 ≡ err database_failed)))

  -- The outcomes of a check, as the reply shows them, and when each is due.
  abbrev pub Decided : ℕ → Text → Text → World env → Result Reply → Type 0
  Decided now ip cn w x =
      ((r : AccessResponse) × (x ≡ ok (okay r)) × Due now ip cn w r)
      ⊎ (((x ≡ ok (okay refused)) × Unentitled now ip cn w)
          ⊎ ((x ≡ ok (internal_error refused)) × Failed now ip cn w))
