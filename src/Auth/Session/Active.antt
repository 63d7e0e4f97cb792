-- ===== src/Auth/Session/Active.antt =====
-- SessionService.Active of internal/auth/session.go: the sessions that exist right now. What SCAN
-- returns for a pattern is an argument: keys, and whether the iteration came to its end.
use dvarpala.Base.{
  ℕ, ◌&&◌, ◌||◌, Bool, false, List, [], ◌∷◌, Text, codes, text_eq, has_prefix, ltb, leb, ◌==◌,
  if◌then◌else◌, sort_by,
}
use dvarpala.Models.{Session}
use dvarpala.Platform.{Env, Exec, redis_failed, pure, raise, ◌>>=◌, catch, redis_get}
use dvarpala.Platform.Redis.{ttl}
use dvarpala.Auth.Session.{fetch}

-- A remaining life of 0 is one that is not known.
pub record ActiveSession : Type 0 where
  pub session : Session
  pub remaining : ℕ
  pub on_tunnel : Bool

pub record Scanned : Type 0 where
  pub found : List Text
  pub whole : Bool

-- The shortest life that is known.
abbrev pub shorter : ℕ → ℕ → ℕ
shorter known left = if ltb 0 left && (known == 0 || ltb left known) then left else known

abbrev pub noted : Text → ℕ → ActiveSession → ActiveSession
noted key left a = record a {
  remaining = shorter a.remaining left;
  on_tunnel = has_prefix (codes "auth:") key || a.on_tunnel;
}

-- byToken, in the order of the first reads.
unfoldable pub note : Text → Session → ℕ → List ActiveSession → List ActiveSession
note key sess left [] =
    noted key left (record { session = sess; remaining = 0; on_tunnel = false }) ∷ []
note key sess left (a ∷ r) =
    let rest = note key sess left r in
    if text_eq a.session.token sess.token then noted key left a ∷ r else a ∷ rest

module _ {env : Env} where
  -- A TTL that cannot be read counts as none.
  abbrev pub life_of : ℕ → Text → Exec env ℕ
  life_of now key = catch (redis_get (ttl now key)) (λ left. pure left) (λ e. pure 0)

  -- The loop over the keys of a pattern; a key that cannot be read is passed over.
  unfoldable pub visit : ℕ → List Text → List ActiveSession → Exec env (List ActiveSession)
  visit now [] seen = pure seen
  visit now (key ∷ ks) seen =
      catch (fetch now key)
        (λ sess. do left ← life_of now key; visit now ks (note key sess left seen))
        (λ e. visit now ks seen)

  abbrev pub visit_pattern : ℕ → Scanned → List ActiveSession → Exec env (List ActiveSession)
  visit_pattern now s seen = do
    after ← visit now s.found seen
    if s.whole then pure after else raise redis_failed

  unfoldable pub active : ℕ → Scanned → Scanned → Exec env (List ActiveSession)
  active now auth_keys session_keys = do
    tunnels ← visit_pattern now auth_keys []
    all ← visit_pattern now session_keys tunnels
    pure (
        sort_by
          (λ (a : ActiveSession) (b : ActiveSession). leb b.session.issued_at a.session.issued_at)
          all)
