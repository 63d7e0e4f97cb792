-- ===== src/Auth/BreakGlass/Redemption.antt =====
-- What an emergency link opens, and how often.
use dvarpala.Base.{
  ℕ, ◌+◌, ◌≤◌, ◌<◌, ◌≡◌, refl, ap, ◌∙◌, false, Option, none, some, Text, text_eq, text_eq_refl,
  is_empty, ltb, arith, map, codes,
}
use dvarpala.Models.{Session, Group}
use dvarpala.Platform.{
  Env, World, IsReliable, ok, err, no_break_glass, ◌>>=◌, catch, on_error, redis_call, redis_set,
  tables, keys,
}
use dvarpala.Platform.Redis.{at, at-update_ne, get, set, del}
use dvarpala.Services.Audit.Writing.{log-ok, log-keys}
use dvarpala.Services.Users.{Account, is_authorised}
use dvarpala.Services.Users.Standing.{Authorised, is_authorised-eq}
use dvarpala.Auth.Session.{
  create, stamp, store_session, effective_ttl, session_key, auth_key, get_session,
}
use dvarpala.Auth.Session.Lifecycle.{create-keys, fetch-eq-found}
use dvarpala.Auth.Session.Ending.{fetch-keys}
use dvarpala.Auth.Session.Keys.{auth_key-ne-session_key}
use dvarpala.Auth.BreakGlass.{
  break_glass_key, break_glass_max, granted_ttl, emergency_session, group_names, issued_entry,
  redeemed_entry, session, issue_to, issue, get_del, redeem,
}
use dvarpala.Auth.BreakGlass.Issuing.{granted_bounds}

session_key-ne-break_glass_key : (s t : Text) → text_eq (session_key s) (break_glass_key t) ≡ false
unfolding session_key break_glass_key text_eq
session_key-ne-break_glass_key s t = refl

auth_key-ne-break_glass_key : (s t : Text) → text_eq (auth_key s) (break_glass_key t) ≡ false
unfolding auth_key break_glass_key text_eq
auth_key-ne-break_glass_key s t = refl

break_glass_key-ne-session_key : (s t : Text) → text_eq (break_glass_key s) (session_key t) ≡ false
unfolding session_key break_glass_key text_eq
break_glass_key-ne-session_key s t = refl

module _ {env : Env} (up : IsReliable env) where
  issue_to-keys :
      (now : ℕ) (token code : Text) (a : Account) (client_ip reason : Text) (ttl : ℕ)
      (w : World env)
      → effective_ttl ttl ≡ ttl
      → let sess = stamp (emergency_session a client_ip) token now ttl in
        let (r, w') = issue_to now (some token) (some code) a client_ip reason ttl w in
        (r
          ≡ ok (record {
            code = code;
            email = a.user.email;
            groups = group_names a;
            expires = now + ttl;
          }))
        × (keys w'
            ≡ set now
                (break_glass_key code)
                token
                ttl
                (store_session now ttl sess (env.marshal sess) (keys w)))
  unfolding issue_to session ◌>>=◌ redis_set
  issue_to-keys now token code a client_ip reason ttl w same =
      let (r, k) = create-keys up now ttl token (emergency_session a client_ip) w in
      let v = (create now ttl (some token) (emergency_session a client_ip) w).1 in
      let f = set now (break_glass_key code) token ttl in
      let wrote = env.redis.view-update f v.redis (up.redis_up v.redis) in
      let u = (redis_set f v).1 in
      let e = issued_entry a client_ip reason ttl (group_names a) in
      rw (same, issue_to) (ground (arith, up.redis_up v.redis, log-ok now e u, log-keys now e u))

  redeem-keys :
      (now : ℕ) (code token : Text) (sess : Session) (w : World env)
      → is_empty code ≡ false
      → get now (break_glass_key code) (keys w) ≡ some token
      → is_empty token ≡ false
      → get now (session_key token) (keys w) ≡ some (env.marshal sess)
      → now ≤ sess.expires
      → let (r, w') = redeem now code w in
        (r ≡ ok sess) × (keys w' ≡ del (break_glass_key code) (keys w))
  unfolding redeem get_del catch redis_call ◌>>=◌ at
  redeem-keys now code token sess w ne held full live le =
      let v = (get_del now (break_glass_key code) w).1 in
      let x = (get_session now token v).1 in
      let wrote =
        env.redis.view-update (del (break_glass_key code)) w.redis (up.redis_up w.redis) in
      let read = fetch-eq-found up now (session_key token) v in
      let codec = env.unmarshal-marshal sess in
      let kept =
        at-update_ne now (break_glass_key code) (session_key token) none (keys w)
          (break_glass_key-ne-session_key code token) in
      let there = fetch-keys up now (session_key token) v in
      let e = redeemed_entry sess in
      ground (arith, up.redis_up w.redis, log-ok now e x, log-keys now e x)

  redeem_gone :
      (now : ℕ) (code : Text) (w : World env)
      → get now (break_glass_key code) (keys w) ≡ none
      → (redeem now code w).0 ≡ err no_break_glass
  unfolding redeem get_del catch redis_call
  redeem_gone now code w h = ground (arith, up.redis_up w.redis)

  issue-issue_to :
      (now : ℕ) (random_token random_code : Option Text) (email client_ip reason : Text) (asked : ℕ)
      (a : Account) (w : World env)
      → is_empty reason ≡ false
      → ltb break_glass_max asked ≡ false
      → Authorised email (tables w) a
      → issue now random_token random_code email client_ip reason asked w
        ≡ issue_to now random_token random_code a client_ip reason
            (granted_ttl asked)
            (is_authorised email w).1
  unfolding issue on_error catch ◌>>=◌
  issue-issue_to now random_token random_code email client_ip reason asked a w given short
        (there, is_open) =
      let r = is_authorised-eq up email a w there in ground arith

  -- On servers that answer: an emergency link that is issued, with a reason and within the limit,
  -- to an active account opens the session of that account, with its groups, while its lifetime
  -- lasts, and does so once: the same link opens nothing after that. A link that was not used
  -- opens nothing once its lifetime is over.
  pub issue-redeem :
      (now later again : ℕ) (token code email client_ip reason : Text) (asked : ℕ) (a : Account)
      (w : World env)
      → is_empty token ≡ false
      → is_empty code ≡ false
      → is_empty reason ≡ false
      → ltb break_glass_max asked ≡ false
      → Authorised email (tables w) a
      → later < now + granted_ttl asked
      → let (r, w') = issue now (some token) (some code) email client_ip reason asked w in
        let (r', w'') = redeem later code w' in
        (r
          ≡ ok (record {
            code = code;
            email = a.user.email;
            groups = map (λ (g : Group). g.name) a.groups;
            expires = now + granted_ttl asked;
          }))
        × (r'
            ≡ ok (record {
              token = token;
              user_id = a.user.id;
              email = a.user.email;
              provider = codes "break-glass";
              groups = map (λ (g : Group). g.name) a.groups;
              client_ip = client_ip;
              issued_at = now;
              expires = now + granted_ttl asked;
            }))
        × ((redeem again code w'').0 ≡ err no_break_glass)
        × (now + granted_ttl asked ≤ again → (redeem again code w').0 ≡ err no_break_glass)
  unfolding at
  issue-redeem now later again token code email client_ip reason asked a w full ne given short
        standing lt =
      let ttl = granted_ttl asked in
      let sess = stamp (emergency_session a client_ip) token now ttl in
      let w' = (issue now (some token) (some code) email client_ip reason asked w).1 in
      let w'' = (redeem later code w').1 in
      let v = (is_authorised email w).1 in
      let same =
        issue-issue_to now (some token) (some code) email client_ip reason asked a w given short
          standing in
      let (r, k) =
        issue_to-keys now token code a client_ip reason ttl v (granted_bounds asked short).0 in
      let k' = ap (λ x. keys x.1) same ∙ k in
      let held : get later (break_glass_key code) (keys w') ≡ some token =
        ground (arith, text_eq_refl (break_glass_key code)) in
      let live : get later (session_key token) (keys w') ≡ some (env.marshal sess) = ground (
        arith,
        text_eq_refl (session_key token),
        auth_key-ne-session_key client_ip token,
        break_glass_key-ne-session_key code token,
      ) in
      let (r', k'') = redeem-keys later code token sess w' ne held full live (omega arith) in
      let gone : get again (break_glass_key code) (keys w'') ≡ none =
        ground (arith, text_eq_refl (break_glass_key code)) in
      (
        ap (λ x. x.0) same ∙ r,
        r',
        redeem_gone again code w'' gone,
        λ le. redeem_gone again code w' (ground (arith, text_eq_refl (break_glass_key code))),
      )
