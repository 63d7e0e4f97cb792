-- ===== src/Auth/BreakGlass/Issuing.antt =====
-- To whom an emergency link is issued, and until when it is good.
use dvarpala.Base.{
  ℕ, ◌+◌, ◌*◌, ◌≤◌, ◌<◌, ◌≡◌, sym, ap, ◌∙◌, inl, inr, false, Option, Text, is_empty, ltb, arith,
}
use dvarpala.Models.{Session, hour}
use dvarpala.Platform.{Env, World, ok, pure, on_error, redis_set, tables}
use dvarpala.Platform.Rules.{bind-ok, if-ok, on_error-ok}
use dvarpala.Services.Audit.{log}
use dvarpala.Services.Users.{Account, is_authorised}
use dvarpala.Services.Users.Standing.{Authorised, is_authorised-ok}
use dvarpala.Auth.Session.{create, effective_ttl, new_token}
use dvarpala.Auth.Session.Lifecycle.{create-ok}
use dvarpala.Auth.BreakGlass.{
  Grant, break_glass_max, granted_ttl, emergency_session, group_names, session, issue_to, issue,
}

-- The lifetime of an emergency session is the one asked for, within the limit.
pub granted_bounds :
    (asked : ℕ)
    → ltb break_glass_max asked ≡ false
    → (effective_ttl (granted_ttl asked) ≡ granted_ttl asked)
      × (1 ≤ granted_ttl asked)
      × (granted_ttl asked ≤ break_glass_max)
unfolding effective_ttl
granted_bounds asked h = (ground arith, ground arith, ground arith)

module _ {env : Env} where
  pure-ok : (x g : Grant) (v u : World env) → pure x v ≡ (ok g, u) → x ≡ g
  pure-ok x g v u h = cc

  issue_to-ok :
      (now : ℕ) (random_token random_code : Option Text) (a : Account) (client_ip reason : Text)
      (ttl : ℕ) (g : Grant) (w u : World env)
      → issue_to now random_token random_code a client_ip reason ttl w ≡ (ok g, u)
      → (g.email ≡ a.user.email)
        × (g.groups ≡ group_names a)
        × (g.expires ≡ now + effective_ttl ttl)
  unfolding issue_to session
  issue_to-ok now random_token random_code a client_ip reason ttl g w u h =
      let make = create now (effective_ttl ttl) random_token (emergency_session a client_ip) in
      let (sess, v, made, r) = bind-ok make _ h in
      let (token, same) =
        create-ok now (effective_ttl ttl) random_token (emergency_session a client_ip) sess w v
          made in
      let (code, v', drawn, r') = bind-ok (new_token random_code) _ r in
      let (x, v'', stored, r'') = bind-ok (redis_set _) _ r' in
      let (x', v''', noted, last) = bind-ok (log now _) _ r'' in
      let e = pure-ok _ g v''' u last in
      (
        sym (ap (λ (x : Grant). x.email) e),
        sym (ap (λ (x : Grant). x.groups) e) ∙ ap (λ (x : Session). x.groups) same,
        sym (ap (λ (x : Grant). x.expires) e) ∙ ap (λ (x : Session). x.expires) same,
      )

  -- Whatever the servers do: an emergency link is issued just with a reason, for an active
  -- account, and names that account and its groups. It ends later than it is issued, and within
  -- two hours.
  pub issue_sound :
      (now : ℕ) (random_token random_code : Option Text) (email client_ip reason : Text) (asked : ℕ)
      (g : Grant) (w u : World env)
      → issue now random_token random_code email client_ip reason asked w ≡ (ok g, u)
      → (is_empty reason ≡ false)
        × ((a : Account) × Authorised email (tables w) a
            × (g.email ≡ a.user.email)
            × (g.groups ≡ group_names a))
        × (now < g.expires)
        × (g.expires ≤ now + 2 * hour)
  unfolding issue
  issue_sound now random_token random_code email client_ip reason asked g w u h =
      elim (if-ok (is_empty reason) _ _ h) [
        | inl (e, k) ↦ cc
        | inr (given, k) ↦ elim (if-ok (ltb break_glass_max asked) _ _ k) [
          | inl (e, k') ↦ cc
          | inr (short, k') ↦
              let (a, v, got, r) = bind-ok (on_error (is_authorised email) _) _ k' in
              let (standing, t, m) =
                is_authorised-ok email (on_error-ok (is_authorised email) _ got) in
              let (mail, groups, end) =
                issue_to-ok now random_token random_code a client_ip reason (granted_ttl asked) g v
                  u r in
              let (same, low, high) = granted_bounds asked short in
              (given, (a, standing, mail, groups), omega arith, omega arith)
        ]
      ]
