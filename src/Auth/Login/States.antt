-- ===== src/Auth/Login/States.antt =====
-- What a state token is good for.
use dvarpala.Base.{
  ℕ, ◌+◌, ◌≤◌, ◌<◌, ◌≡◌, refl, ap, ◌∙◌, Bool, true, false, none, some, Text, ◌++◌, [], ◌∷◌, text_eq,
  text_eq_refl, is_empty, has_prefix, strip_prefix?, arith, any, ◌==◌, if◌then◌else◌,
}
use dvarpala.Platform.{
  Env, World, IsReliable, ok, err, bad_state, ◌>>=◌, catch, on_error, redis_call, redis_set, keys,
}
use dvarpala.Platform.Redis.{at, get, set, del}
use dvarpala.Auth.BreakGlass.{get_del}
use dvarpala.Auth.Login.{state_ttl, state_key, state_prefix, consume_state, new_login_attempt}

pub has_prefix-append : (p s : Text) → has_prefix p (p ++ s) ≡ true
unfolding strip_prefix?
has_prefix-append [] s = refl
has_prefix-append (c ∷ p) s = ground (arith, has_prefix-append p s)

-- A provider's name has no bar.
abbrev pub has_bar : Text → Bool
has_bar name = any (λ c. c == b'|') name

has_prefix_other :
    (other provider s : Text)
    → has_bar other ≡ false
    → has_bar provider ≡ false
    → text_eq other provider ≡ false
    → has_prefix (state_prefix other) (state_prefix provider ++ s) ≡ false
unfolding strip_prefix? any text_eq
has_prefix_other [] [] s h k ne = absurd (ground arith)
has_prefix_other [] (d ∷ p) s h k ne = ground arith
has_prefix_other (c ∷ o) [] s h k ne = ground arith
has_prefix_other (c ∷ o) (d ∷ p) s h k ne = ground (arith, has_prefix_other o p s)

module _ {env : Env} (up : IsReliable env) where
  new_login_attempt-keys :
      (now : ℕ) (state provider client_ip : Text) (w : World env)
      → let (r, w') = new_login_attempt now (some state) provider client_ip w in
        (r ≡ ok state)
        × (keys w'
            ≡ set now (state_key state) (state_prefix provider ++ client_ip) state_ttl (keys w))
  unfolding new_login_attempt on_error catch ◌>>=◌ redis_set
  new_login_attempt-keys now state provider client_ip w =
      let f = set now (state_key state) (state_prefix provider ++ client_ip) state_ttl in
      ground (arith, up.redis_up w.redis, env.redis.view-update f w.redis (up.redis_up w.redis))

  consume_state-keys :
      (now : ℕ) (state provider value : Text) (w : World env)
      → is_empty state ≡ false
      → get now (state_key state) (keys w) ≡ some value
      → let (r, w') = consume_state now state provider w in
        (r ≡ (if has_prefix (state_prefix provider) value then ok tt else err bad_state))
        × (keys w' ≡ del (state_key state) (keys w))
  unfolding consume_state get_del ◌>>=◌ redis_call
  consume_state-keys now state provider value w ne held =
      let f = del (state_key state) in
      ground (arith, up.redis_up w.redis, env.redis.view-update f w.redis (up.redis_up w.redis))

  consume_state_gone :
      (now : ℕ) (state provider : Text) (w : World env)
      → get now (state_key state) (keys w) ≡ none
      → (consume_state now state provider w).0 ≡ err bad_state
  unfolding consume_state get_del ◌>>=◌ redis_call
  consume_state_gone now state provider w h = ground (arith, up.redis_up w.redis)

  -- On servers that answer: a state token that a login was begun with is accepted once, for the
  -- provider of that login and within ten minutes: not again at any time after, not for a provider
  -- with another name (where the two names have no bar), and not after the ten minutes.
  pub attempt-consume_state :
      (now later again : ℕ) (state provider other client_ip : Text) (w : World env)
      → is_empty state ≡ false
      → later < now + state_ttl
      → let (r, w') = new_login_attempt now (some state) provider client_ip w in
        let (r', w'') = consume_state later state provider w' in
        (r ≡ ok state)
        × (r' ≡ ok tt)
        × ((consume_state again state other w'').0 ≡ err bad_state)
        × (has_bar other ≡ false
            → has_bar provider ≡ false
            → text_eq other provider ≡ false
            → (consume_state later state other w').0 ≡ err bad_state)
        × (now + state_ttl ≤ again → (consume_state again state other w').0 ≡ err bad_state)
  unfolding at
  attempt-consume_state now later again state provider other client_ip w ne lt =
      let value = state_prefix provider ++ client_ip in
      let w' = (new_login_attempt now (some state) provider client_ip w).1 in
      let w'' = (consume_state later state provider w').1 in
      let (r, k) = new_login_attempt-keys now state provider client_ip w in
      let held : get later (state_key state) (keys w') ≡ some value =
        ground (arith, text_eq_refl (state_key state)) in
      let (r', k') = consume_state-keys later state provider value w' ne held in
      let (r'', k'') = consume_state-keys later state other value w' ne held in
      let gone : get again (state_key state) (keys w'') ≡ none =
        ground (arith, text_eq_refl (state_key state)) in
      (
        r,
        r'
            ∙ ap (λ b. if b then ok tt else err bad_state)
                (has_prefix-append (state_prefix provider) client_ip),
        consume_state_gone again state other w'' gone,
        λ h k no.
            r''
            ∙ ap (λ b. if b then ok tt else err bad_state)
                (has_prefix_other other provider client_ip h k no),
        λ le.
            consume_state_gone again state other w'
              (ground (arith, text_eq_refl (state_key state))),
      )
