-- ===== src/Web/SignIn/Access.antt =====
-- Signing in with a code from the portal to the VPN's connect hook: internal/web/otp.go,
-- internal/web/auth.go, internal/auth/service.go and internal/api/vpnapi/vpn.go together.
use dvarpala.Base.{
  ℕ, ◌+◌, ◌≤◌, ◌<◌, ◌≡◌, refl, sym, ap, ◌∙◌, subst, true, false, Option, none, some, Text, codes,
  [], ◌++◌, find, is_empty, text_eq_refl, trim_space, if◌then◌else◌, to_lower-trim_space_twice,
  arith,
}
use dvarpala.Models.{Session, User}
use dvarpala.Platform.{Env, World, IsReliable, Result, ok, err, keys, tables}
use dvarpala.Platform.Redis.{Keyspace, ttl}
use dvarpala.Platform.Database.{Tables}
use dvarpala.Platform.Runs.{outcome}
use dvarpala.Services.Audit.{Entry, append_log}
use dvarpala.Services.Users.{
  Account, account_of, account_in, groups_of, normalise_email, live_with_email, update_user,
}
use dvarpala.Services.Users.Standing.{
  Authorised, account_of-email, account_of-update_by, account_of-same,
}
use dvarpala.Services.Domains.{domain_of}
use dvarpala.Services.Permissions.{user_grants}
use dvarpala.Auth.Session.{store_session, auth_key}
use dvarpala.Auth.Session.Pairing.{session_at, store_session-auth_key}
use dvarpala.Auth.Session.Absence.{fetch-present}
use dvarpala.Auth.Otp.{otp_ttl, verified_ttl, canonical, generate_code}
use dvarpala.Auth.Login.{code_sent, in_list, login_entry, state_ttl, Service, state_prefix}
use dvarpala.Auth.Login.Running.{admits, listed}
use dvarpala.Auth.Login.Completing.{session_of, code_info, logged_in}
use dvarpala.Auth.Login.Trail.{mailed, proved, get-mailed, state-proved, verified-proved}
use dvarpala.Auth.Login.States.{has_prefix-append}
use dvarpala.Vpn.Access.{okay, granted, same_identity, to_routes, access}
use dvarpala.Vpn.Access.Outcome.{access-granted}
use dvarpala.Web.{Site, Request, Step, plain, redirect}
use dvarpala.Web.Codes
use dvarpala.Web.Codes.{page, callback_url, start, send}
use dvarpala.Web.Portal.{callback, welcome}
use dvarpala.Web.SignIn.{MaySignIn, start-Runs, checked-Runs, welcomed-Runs}

normalise_email_twice : (s : Text) → normalise_email (normalise_email s) ≡ normalise_email s
unfolding normalise_email
normalise_email_twice s = to_lower-trim_space_twice s

-- The account of a login after it, found by the address that is in it.
account_after :
    (now : ℕ) (e : Entry) (email : Text) (T : Tables) (a : Account)
    → Authorised email T a
    → let T' = append_log now e (update_user a.user.id (logged_in now) T) in
      (b : Account) × Authorised a.user.email T' b × (b.user.id ≡ a.user.id)
account_after now e email T a (there, active) =
    let n = normalise_email in
    let same : n a.user.email ≡ n email =
      ap n (account_of-email (n email) T a there) ∙ normalise_email_twice email in
    let found = ap (λ x. account_of x T) same ∙ there in
    let T' = update_user a.user.id (logged_in now) T in
    let moved =
      account_of-update_by (logged_in now) (λ u. (refl, refl, refl)) (n a.user.email) a.user.id T a
        found refl in
    let b = record a { user = logged_in now a.user } in
    (
      record { user = logged_in now a.user; groups = groups_of a.user.id T' },
      (account_of-same (n a.user.email) T' (append_log now e T') b refl moved, active),
      refl,
    )

account_of-append_log :
    (now : ℕ) (e : Entry) (email : Text) (T : Tables)
    → account_of email (append_log now e T) ≡ account_of email T
account_of-append_log now e email T = go (find (live_with_email email) T.users.rows)
  where
    go : (o : Option User) → account_in (append_log now e T) o ≡ account_in T o
    go none = refl
    go (some u) = refl

admits-append_log :
    {env : Env} (s : Service env) (now : ℕ) (e : Entry) (email : Text) (T : Tables)
    → admits s email (append_log now e T) ≡ admits s email T
admits-append_log s now e email T =
    ap (λ b. if s.has_domains then b else in_list s.allowed_domains email) (go (domain_of email))
  where
    go : (d : Result Text) → listed (append_log now e T) d ≡ listed T d
    go (ok d) = refl
    go (err x) = refl

-- The session that a login stores, at its address.
stored_at :
    (unmarshal : Text → Option Session) (now t ttl : ℕ) (sess : Session) (payload : Text)
    (K : Keyspace)
    → unmarshal payload ≡ some sess
    → is_empty sess.client_ip ≡ false
    → t < now + ttl
    → t ≤ sess.expires
    → session_at unmarshal t (auth_key sess.client_ip) (store_session now ttl sess payload K)
      ≡ some sess
stored_at unmarshal now t ttl sess payload K codec ne lt le =
    store_session-auth_key unmarshal t now ttl sess payload sess.client_ip K
    ∙ rw (ne, text_eq_refl sess.client_ip, codec) (ground arith)

module _ {env : Env} (up : IsReliable env) (site : Site env) (r : Request) where
  -- On servers that answer, with the code flow among the providers and a mailer that takes the mail:
  -- a person whose domain is listed, whose account is active and for whom TTL reads no cooldown and
  -- fewer than ten codes are counted that day, asks for a code at the portal, from an address that
  -- is known and with a state that is not empty, is mailed it and types it, with blanks around it,
  -- within five minutes; the browser goes on within two minutes, and ten of the start. Then the
  -- person is shown the page for the code, is sent on, and is given a cookie with the new session,
  -- and the VPN's connect hook, while the session lasts and for a certificate in the person's name,
  -- lets the tunnel of that address on with the routes of the account's groups.
  pub sign_in-access :
      (t0 t1 t2 t3 n : ℕ) (state tok address code cn : Text) (a : Account) (w : World env)
      → MaySignIn site.service t0 n address a (keys w) (tables w)
      → is_empty state ≡ false
      → is_empty r.client_ip ≡ false
      → trim_space code ≡ generate_code n
      → t1 < t0 + otp_ttl
      → t2 < t1 + verified_ttl
      → t2 < t0 + state_ttl
      → t3 < t2 + site.service.session_ttl
      → same_identity cn a.user.email ≡ true
      → let (shown, w1) = start site t0 r (some state) (some n) address w in
        let (sent, w2) = Codes.verify site t1 r address code state w1 in
        let (welcomed, w3) = callback site t2 r (some tok) (codes "otp") state state w2 in
        let (answer, w4) = access t3 r.client_ip cn w3 in
        let sess =
          session_of a
            (code_info (canonical address))
            r.client_ip
            tok
            t2
            site.service.session_ttl in
        (shown ≡ ok (page Step.code state address []))
        × (sent ≡ ok (plain (redirect (callback_url state))))
        × (welcomed ≡ ok (welcome site t2 r sess))
        × (answer
            ≡ ok
                (okay (granted sess (to_routes env.split_ipv6 (user_grants a.user.id (tables w))))))
  unfolding user_grants
  sign_in-access t0 t1 t2 t3 n state tok address code cn a w may ne full same in1 in2 in3 in4 who =
      let email = canonical address in
      let ip = r.client_ip in
      let value = state_prefix (codes "otp") ++ ip in
      let mail = generate_code n in
      let K = keys w in
      let T = tables w in
      let T1 = append_log t0 (code_sent email ip) T in
      let K1 = mailed t0 state value K email mail in
      let K2 = proved t0 state value K t1 email mail in
      let sess = session_of a (code_info email) ip tok t2 site.service.session_ttl in
      let w1 = (start site t0 r (some state) (some n) address w).1 in
      let w2 = (Codes.verify site t1 r address code state w1).1 in
      let w3 = (callback site t2 r (some tok) (codes "otp") state state w2).1 in
      let (r1, k1, tb1) =
        outcome (start site t0 r (some state) (some n) address) w
          (start-Runs up site r t0 n state address a K T may) refl refl in
      let held = get-mailed t0 state value K t1 email mail in1 ∙ ap some (sym same) in
      let (r2, k2, tb2) =
        outcome (Codes.verify site t1 r address code state) w1
          (checked-Runs up site r t1 address code state K1 T1 may.has_otp held) k1 tb1 in
      let who1 : Authorised email T1 a = (
        account_of-append_log t0 (code_sent email ip) (normalise_email email) T ∙ may.account.0,
        may.account.1,
      ) in
      let inside = admits-append_log site.service t0 (code_sent email ip) email T ∙ may.domain in
      let (r3, k3, tb3) =
        outcome (callback site t2 r (some tok) (codes "otp") state state) w2
          (welcomed-Runs up site r t2 tok state value email a K2 T1 may.offers ne
            (state-proved t0 state value K t1 t2 email mail in3)
            (has_prefix-append (state_prefix (codes "otp")) ip)
            (verified-proved t0 state value K t1 t2 email mail in2) inside who1)
          k2 tb2 in
      let (b, there, id) = account_after t2 (login_entry a (code_info email) ip) email T1 a who1 in
      let reads = fetch-present up t3 (auth_key ip) sess w3 (
        ap (session_at env.unmarshal t3 (auth_key ip)) k3
        ∙ stored_at env.unmarshal t2 t3 site.service.session_ttl sess (env.marshal sess) _
            (env.unmarshal-marshal sess) full in4 (ground arith)) in
      let answer =
        access-granted up t3 ip cn sess b w3 reads who
          (subst (λ x. Authorised a.user.email x b) (sym tb3) there) in
      let grants : user_grants b.user.id (tables w3) ≡ user_grants a.user.id T =
        ap (user_grants b.user.id) tb3 ∙ ap (λ i. user_grants i T) id in
      (
        r1,
        r2,
        r3,
        answer ∙ ap (λ gs. ok (okay (granted sess (to_routes env.split_ipv6 gs)))) grants,
      )
