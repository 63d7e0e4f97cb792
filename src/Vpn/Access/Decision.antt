-- ===== src/Vpn/Access/Decision.antt =====
-- Who is let on to the network by the connect hook, and with which routes.
use dvarpala.Base.{
  ℕ, ◌≡◌, refl, sym, ap, ◌∙◌, subst, ◌⊎◌, inl, inr, true, false, some, Text, if◌then◌else◌,
  Bool-cases,
}
use dvarpala.Models.{Session}
use dvarpala.Platform.{
  Env, World, ok, err, Error, database_failed, ◌>>=◌, catch, ignore, pure, tables,
}
use dvarpala.Platform.Rules.{run-cases, catch-after_ok, catch-after_err}
use dvarpala.Services.Users.{Account, account_of, normalise_email, is_authorised}
use dvarpala.Services.Users.Standing.{Authorised, is_authorised-ok}
use dvarpala.Services.Permissions.{user_grants, resources_for_user}
use dvarpala.Auth.Session.{get_by_client_ip, is_no_session, auth_key}
use dvarpala.Auth.Session.Lifecycle.{fetch-le-expires}
use dvarpala.Auth.Login.{client_reconnected}
use dvarpala.Vpn.Access.{
  okay, internal_error, refused, same_identity, to_routes, granted, mismatch_entry, closed_entry,
  report, opened, open_routes, check_session, access,
}
use dvarpala.Vpn.Access.Checks.{
  Decided, is_no_session_eq, is_no_session_ne, fetch-tables, client_reconnected-tables, report-ok,
  resources_for_user-ok, resources_for_user_fails, is_authorised-Unauthorised,
}

module _ {env : Env} where
  pub open_routes-ignore :
      (now : ℕ) (ip : Text) (sess : Session) (v : World env)
      → open_routes now ip sess v
        ≡ catch
            (resources_for_user sess.email)
            (λ gs. opened now ip sess gs)
            (λ e. pure (internal_error refused))
            (client_reconnected now ip v).1
  unfolding open_routes ◌>>=◌ ignore
  open_routes-ignore now ip sess v = refl

  -- Past the checks the routes are those of the account, unless the database fails.
  open_routes-cases :
      (now : ℕ) (ip : Text) (sess : Session) (a : Account) (v : World env)
      → account_of (normalise_email sess.email) (tables v) ≡ some a
      → ((open_routes now ip sess v).0
          ≡ ok (okay (granted sess (to_routes env.split_ipv6 (user_grants a.user.id (tables v))))))
        ⊎ (((open_routes now ip sess v).0 ≡ ok (internal_error refused))
            × ((u : World env) × (tables u ≡ tables v)
                × ((resources_for_user sess.email u).0 ≡ err database_failed)))
  open_routes-cases now ip sess a v there =
      let u = (client_reconnected now ip v).1 in
      let t = client_reconnected-tables now ip v in
      let m = resources_for_user sess.email in
      let same = open_routes-ignore now ip sess v in
      elim (run-cases m u) [
        | inl (gs, x, e) ↦
            let which =
              resources_for_user-ok sess.email a gs u x e
                (ap (account_of (normalise_email sess.email)) t ∙ there)
              ∙ ap (user_grants a.user.id) t in
            inl (
              ap (λ y. y.0) (same ∙ catch-after_ok m _ _ e)
              ∙ report-ok now _ _ x
              ∙ ap (λ gs. ok (okay (granted sess (to_routes env.split_ipv6 gs)))) which)
        | inr (y, x, e) ↦
            let why =
              resources_for_user_fails sess.email a u x e
                (ap (account_of (normalise_email sess.email)) t ∙ there) in
            inr (
              ap (λ y. y.0) (same ∙ catch-after_err m _ _ e),
              (u, t, ap (λ r. r.0) e ∙ ap (λ z. err z) why),
            )
      ]

  check_session_mismatch :
      (now : ℕ) (ip cn : Text) (sess : Session) (v : World env)
      → same_identity cn sess.email ≡ false
      → check_session now ip cn sess v ≡ report now (mismatch_entry ip cn sess) (okay refused) v
  unfolding check_session
  check_session_mismatch now ip cn sess v h = rw (h, check_session) refl

  pub check_session_match :
      (now : ℕ) (ip cn : Text) (sess : Session) (v : World env)
      → same_identity cn sess.email ≡ true
      → check_session now ip cn sess v
        ≡ catch
            (is_authorised sess.email)
            (λ a. open_routes now ip sess)
            (λ e. report now (closed_entry ip sess) (okay refused))
            v
  unfolding check_session
  check_session_match now ip cn sess v h = rw (h, check_session) refl

  -- A matching session of an active account.
  opened-Decided :
      (now : ℕ) (ip cn : Text) (sess : Session) (a : Account) (w v : World env)
      → (get_by_client_ip now ip w).0 ≡ ok sess
      → same_identity cn sess.email ≡ true
      → Authorised sess.email (tables w) a
      → tables v ≡ tables w
      → Decided now ip cn w (open_routes now ip sess v).0
  opened-Decided now ip cn sess a w v h match (there, active) t =
      elim (open_routes-cases now ip sess a v
        (ap (account_of (normalise_email sess.email)) t ∙ there)) [
          | inl e ↦ inl (
            _,
            e,
            (
              sess,
              h,
              fetch-le-expires now (auth_key ip) sess w h,
              match,
              (
                a,
                (there, active),
                ap (λ x. granted sess (to_routes env.split_ipv6 (user_grants a.user.id x))) t,
              ),
            ),
          )
          | inr (e, (u, same, failed)) ↦
              inr (inr (e, inr (sess, a, h, match, (there, active), (u, same ∙ t, failed))))
        ]

  check_session-Decided :
      (now : ℕ) (ip cn : Text) (sess : Session) (w v : World env)
      → (get_by_client_ip now ip w).0 ≡ ok sess
      → tables v ≡ tables w
      → Decided now ip cn w (check_session now ip cn sess v).0
  check_session-Decided now ip cn sess w v h t = elim (Bool-cases (same_identity cn sess.email)) [
    | inr differs ↦ inr (
        inl (
          ap (λ x. x.0) (check_session_mismatch now ip cn sess v differs) ∙ report-ok now _ _ v,
          inr (sess, h, inl differs),
        ))
    | inl match ↦
        let same = ap (λ x. x.0) (check_session_match now ip cn sess v match) in
        elim (run-cases (is_authorised sess.email) v) [
          | inr (x, u, e) ↦ inr (
              inl (
                same
                    ∙ ap (λ x. x.0) (catch-after_err (is_authorised sess.email) _ _ e)
                    ∙ report-ok now _ _ u,
                inr (sess, h, inr (match, is_authorised-Unauthorised sess.email w v u t e)),
              ))
          | inl (a, u, e) ↦
              let (standing, k, _) = is_authorised-ok sess.email e in
              subst (Decided now ip cn w)
                (sym (same ∙ ap (λ x. x.0) (catch-after_ok (is_authorised sess.email) _ _ e)))
                (opened-Decided now ip cn sess a w u h match
                  (subst (λ x. Authorised sess.email x a) t standing) (k ∙ t))
        ]
  ]

  unread-Decided :
      (now : ℕ) (ip cn : Text) (x : Error) (w v : World env)
      → (get_by_client_ip now ip w).0 ≡ err x
      → Decided now ip cn w
          ((if is_no_session x then pure (okay refused) else pure (internal_error refused)) v).0
  unread-Decided now ip cn x w v h = elim (Bool-cases (is_no_session x)) [
    | inl e ↦ rw e (inr (inl (refl, inl (h ∙ ap (λ y. err y) (is_no_session_eq x e)))))
    | inr e ↦ rw e (inr (inr (refl, inl (x, h, is_no_session_ne x e))))
  ]

  -- Whatever the servers hold, and whether or not they answer, the connect hook answers in one of
  -- three ways. It lets the client on, where the session at its address has not ended, its
  -- certificate is for the session's person, and the account is active; it then opens the routes of
  -- the account's grants. It refuses, opening nothing and naming nobody, where there is no such
  -- session, or the certificate is for somebody else, or the account check fails: for want of an
  -- active account, or because the database does not answer it. It reports a failure of the server,
  -- opening nothing and naming nobody, where the session cannot be read for another reason than that
  -- there is none, or where the database does not give the grants of a person whose account is
  -- active.
  pub access-Decided :
      (now : ℕ) (ip cn : Text) (w : World env) → Decided now ip cn w (access now ip cn w).0
  unfolding access
  access-Decided now ip cn w = elim (run-cases (get_by_client_ip now ip) w) [
    | inl (sess, v, e) ↦
        subst (Decided now ip cn w)
          (sym (ap (λ x. x.0) (catch-after_ok (get_by_client_ip now ip) _ _ e)))
          (check_session-Decided now ip cn sess w v (ap (λ x. x.0) e)
            (sym (ap (λ x. tables x.1) e) ∙ fetch-tables now (auth_key ip) w))
    | inr (x, v, e) ↦
        subst (Decided now ip cn w)
          (sym (ap (λ x. x.0) (catch-after_err (get_by_client_ip now ip) _ _ e)))
          (unread-Decided now ip cn x w v (ap (λ x. x.0) e))
  ]
