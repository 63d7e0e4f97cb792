-- ===== src/Vpn/Access/Outcome.antt =====
-- The connect hook on servers that answer: whom it does let on, and the end of access when an
-- account is closed.
use dvarpala.Base.{ℕ, ◌≡◌, refl, sym, ap, ◌∙◌, inl, inr, true, some, Text, arith, if◌then◌else◌}
use dvarpala.Models.{Session, UserStatus}
use dvarpala.Platform.{
  Env, World, IsReliable, Result, ok, err, Error, user_inactive, ◌>>=◌, select, tables,
}
use dvarpala.Platform.Database.{Tables}
use dvarpala.Platform.Rules.{run-cases, catch-after_ok}
use dvarpala.Services.Users.{
  Account, account_of, normalise_email, is_authorised, get_user_by_email, deactivate_user,
  with_status, is_active,
}
use dvarpala.Services.Users.Standing.{
  Authorised, get_user_by_email-eq, is_authorised-eq, is_authorised-ok, deactivate_user-tables,
  account_of-update,
}
use dvarpala.Services.Permissions.{user_grants, resources_for_user}
use dvarpala.Auth.Session.{get_by_client_ip, auth_key}
use dvarpala.Auth.Login.{client_reconnected}
use dvarpala.Vpn.Access.{okay, refused, same_identity, to_routes, granted, open_routes, access}
use dvarpala.Vpn.Access.Checks.{client_reconnected-tables, fetch-tables, report-ok}
use dvarpala.Vpn.Access.Decision.{access-Decided, check_session_match, open_routes-ignore}

ok-eq : {A : Type 0} {a b : A} → ok a ≡ ok b → a ≡ b
ok-eq h = cc

err-ne : {A : Type 0} {x : Error} {a : A} → Result.err x ≡ ok a → ⊥
err-ne h = cc

-- The account of a session that is read is not one that may be let on, where it is closed.
barred :
    {x : Result Session} (t : Tables) (u : Account) (sess s : Session) (b : Account)
    → x ≡ ok sess
    → x ≡ ok s
    → account_of (normalise_email sess.email) t
      ≡ some (record u { user = with_status UserStatus.inactive u.user })
    → Authorised s.email t b
    → ⊥
barred {x} t u sess s b reads got shut (there, active) =
    let who : s ≡ sess = ok-eq (sym got ∙ reads) in
    let same : account_of (normalise_email sess.email) t ≡ some b =
      sym (ap (λ (z : Session). account_of (normalise_email z.email) t) who) ∙ there in
    let found : some (record u { user = with_status UserStatus.inactive u.user }) ≡ some b =
      sym shut ∙ same in
    let status : UserStatus.inactive ≡ UserStatus.active = ground arith in absurd (cc status)

module _ {env : Env} (up : IsReliable env) where
  resources_for_user-eq :
      (email : Text) (a : Account) (w : World env)
      → account_of (normalise_email email) (tables w) ≡ some a
      → (resources_for_user email w).0 ≡ ok (user_grants a.user.id (tables w))
  unfolding resources_for_user ◌>>=◌ select
  resources_for_user-eq email a w h =
      let (r, t) = get_user_by_email-eq up email w in
      let v = (get_user_by_email email w).1 in ground (arith, up.database_up v.database)

  open_routes-eq :
      (now : ℕ) (ip : Text) (sess : Session) (a : Account) (v : World env)
      → account_of (normalise_email sess.email) (tables v) ≡ some a
      → (open_routes now ip sess v).0
        ≡ ok (okay (granted sess (to_routes env.split_ipv6 (user_grants a.user.id (tables v)))))
  open_routes-eq now ip sess a v there =
      let u = (client_reconnected now ip v).1 in
      let m = resources_for_user sess.email in
      let t = client_reconnected-tables now ip v in
      let found =
        resources_for_user-eq sess.email a u
          (ap (account_of (normalise_email sess.email)) t ∙ there) in
      let same = open_routes-ignore now ip sess v in
      elim (run-cases m u) [
        | inl (gs, x, e) ↦
            let which = ok-eq (sym (ap (λ y. y.0) e) ∙ found) ∙ ap (user_grants a.user.id) t in
            ap (λ y. y.0) (same ∙ catch-after_ok m _ _ e)
            ∙ report-ok now _ _ x
            ∙ ap (λ gs. ok (okay (granted sess (to_routes env.split_ipv6 gs)))) which
        | inr (y, x, e) ↦ absurd (err-ne (sym (ap (λ y. y.0) e) ∙ found))
      ]

  -- On servers that answer, a client whose session at its address can be read, whose certificate is
  -- for the session's person and whose account is active is let on, and gets the routes of the
  -- account's grants.
  pub access-granted :
      (now : ℕ) (ip cn : Text) (sess : Session) (a : Account) (w : World env)
      → (get_by_client_ip now ip w).0 ≡ ok sess
      → same_identity cn sess.email ≡ true
      → Authorised sess.email (tables w) a
      → (access now ip cn w).0
        ≡ ok (okay (granted sess (to_routes env.split_ipv6 (user_grants a.user.id (tables w)))))
  unfolding access
  access-granted now ip cn sess a w reads match (there, active) =
      let m = get_by_client_ip now ip in
      let v = (m w).1 in
      let t = fetch-tables now (auth_key ip) w in
      let e : m w ≡ (ok sess, v) = ap (λ r. (r, v)) reads in
      let there' = ap (account_of (normalise_email sess.email)) t ∙ there in
      let may =
        is_authorised-eq up sess.email a v there'
        ∙ ap (λ s. if is_active s then ok a else err user_inactive) active in
      let n = is_authorised sess.email in
      let u = (n v).1 in
      let e' : n v ≡ (ok a, u) = ap (λ r. (r, u)) may in
      let k = (is_authorised-ok sess.email e').1 in
      ap (λ x. x.0)
        (catch-after_ok m _ _ e
          ∙ check_session_match now ip cn sess v match
          ∙ catch-after_ok n _ _ e')
      ∙ open_routes-eq now ip sess a u (ap (account_of (normalise_email sess.email)) k ∙ there')
      ∙ ap (λ x. ok (okay (granted sess (to_routes env.split_ipv6 (user_grants a.user.id x)))))
          (k ∙ t)

  -- On servers that answer: once an account is closed, a session that can still be read at an
  -- address, and is of the account's person however the address is written, is refused by
  -- the connect hook, at any later time.
  pub deactivate_user-access :
      (now later : ℕ) (email ip cn : Text) (sess : Session) (a : Account) (w : World env)
      → account_of (normalise_email email) (tables w) ≡ some a
      → let w' = (deactivate_user now email w).1 in
        (get_by_client_ip later ip w').0 ≡ ok sess
        → normalise_email sess.email ≡ normalise_email email
        → (access later ip cn w').0 ≡ ok (okay refused)
  deactivate_user-access now later email ip cn sess a w h reads same =
      let w' = (deactivate_user now email w).1 in
      let closed = record a { user = with_status UserStatus.inactive a.user } in
      let (r, t) = deactivate_user-tables up now email a w h in
      let shut : account_of (normalise_email sess.email) (tables w') ≡ some closed =
        ap (λ x. account_of x (tables w')) same
        ∙ ap (account_of (normalise_email email)) t
        ∙ account_of-update (normalise_email email) a.user.id UserStatus.inactive (tables w) a h
            refl in
      elim (access-Decided later ip cn w') [
        | inr (inl (e, why)) ↦ e
        | inr (inr (e, inl (x, unread, other))) ↦ absurd (err-ne (sym unread ∙ reads))
        | inr (inr (e, inr (s, b, got, match, authorised, rest))) ↦
            absurd (barred (tables w') a sess s b reads got shut authorised)
        | inl (r, e, (s, got, fresh, match, (b, authorised, routes))) ↦
            absurd (barred (tables w') a sess s b reads got shut authorised)
      ]
