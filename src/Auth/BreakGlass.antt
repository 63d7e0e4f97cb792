-- ===== src/Auth/BreakGlass.antt =====
-- internal/auth/breakglass.go: emergency sessions, and the single-use links that redeem them.
pub mod Issuing
pub mod Redemption
use dvarpala.Base.{
  ℕ, ◌+◌, ◌*◌, ◌/◌, Bool, true, false, not, Option, none, some, List, [], ◌∷◌, ◌++◌, Text, codes,
  String, ltb, ◌==◌, map, is_empty, if◌then◌else◌,
}
use dvarpala.Models.{Session, User, Group, Detail, text, texts, number, flag, minute, hour}
use dvarpala.Platform.{
  Env, World, Exec, Error, no_break_glass, reason_required, too_long, pure, raise, ◌>>=◌, ◌>>◌,
  catch, on_error, redis_get, redis_set, redis_call,
}
use dvarpala.Platform.Redis.{Keyspace, get, set, del}
use dvarpala.Services.Audit.{Entry, log}
use dvarpala.Services.Users.{Account, is_authorised}
use dvarpala.Auth.Session.{create, get_session, is_no_session, new_token, effective_ttl}

abbrev pub break_glass_default : ℕ
break_glass_default = 15 * minute

abbrev pub break_glass_max : ℕ
break_glass_max = 2 * hour

unfoldable pub break_glass_key : Text → Text
break_glass_key code = codes "breakglass:" ++ code

pub record Grant : Type 0 where
  pub code : Text
  pub email : Text
  pub groups : List Text
  pub expires : ℕ

abbrev pub group_names : Account → List Text
group_names a = map (λ (g : Group). g.name) a.groups

abbrev pub entry : Option ℕ → String → Text → List (String × Detail) → Entry
entry user_id action client_ip details = record {
  user_id = user_id;
  action = action;
  resource_type = "session";
  resource_id = none;
  ip_address = client_ip;
  details = details;
}

-- What is recorded of a link that is issued, and of one that is redeemed.
abbrev pub issued_entry : Account → Text → Text → ℕ → List Text → Entry
issued_entry a client_ip reason ttl groups = entry (some a.user.id) "breakglass_issued" client_ip (
    ("email", text a.user.email)
    ∷ ("groups", texts groups)
    ∷ ("reason", text reason)
    ∷ ("minutes", number (ttl / minute))
    ∷ ("binds_tunnel", flag (not (is_empty client_ip)))
    ∷ [])

abbrev pub redeemed_entry : Session → Entry
redeemed_entry sess =
    entry (some sess.user_id) "breakglass_redeemed" sess.client_ip
      (("email", text sess.email) ∷ ("groups", texts sess.groups) ∷ [])

-- The lifetime asked for, 0 for the default.
abbrev pub granted_ttl : ℕ → ℕ
granted_ttl ttl = if ttl == 0 then break_glass_default else ttl

abbrev pub emergency_session : Account → Text → Session
emergency_session a client_ip = record {
  token = [];
  user_id = a.user.id;
  email = a.user.email;
  provider = codes "break-glass";
  groups = group_names a;
  client_ip = client_ip;
  issued_at = 0;
  expires = 0;
}

module _ {env : Env} where
  -- BreakGlass.session: a store of its own, with the short lifetime.
  unfoldable pub session : ℕ → Option Text → Account → Text → ℕ → Exec env Session
  session now random a client_ip ttl =
      create now (effective_ttl ttl) random (emergency_session a client_ip)

  -- Issue past its checks.
  unfoldable pub issue_to :
      ℕ → Option Text → Option Text → Account → Text → Text → ℕ → Exec env Grant
  issue_to now random_token random_code a client_ip reason ttl = do
    sess ← session now random_token a client_ip ttl
    code ← new_token random_code
    redis_set (set now (break_glass_key code) sess.token ttl)
    log now (issued_entry a client_ip reason ttl sess.groups)
    pure
        (record { code = code; email = a.user.email; groups = sess.groups; expires = sess.expires })

  unfoldable pub issue : ℕ → Option Text → Option Text → Text → Text → Text → ℕ → Exec env Grant
  issue now random_token random_code email client_ip reason asked =
      if is_empty reason
      then raise reason_required
      else if ltb break_glass_max asked
      then raise too_long
      else do
        a ← on_error (is_authorised email) (λ e. log now (
            entry none "breakglass_refused" client_ip
              (("email", text email) ∷ ("reason", text reason) ∷ [])))
        issue_to now random_token random_code a client_ip reason (granted_ttl asked)

  -- The script that gets a key and deletes it, in one step.
  unfoldable pub get_del : ℕ → Text → Exec env (Option Text)
  get_del now key = redis_call (get now key) (del key)

  abbrev pub redeem_token : ℕ → Option Text → Exec env Session
  redeem_token now none = raise no_break_glass
  redeem_token now (some token) =
      if is_empty token
      then raise no_break_glass
      else catch (get_session now token) (λ sess. (log now (redeemed_entry sess)) >> pure sess)
          (λ e. raise (if is_no_session e then no_break_glass else e))

  -- A Redis that does not answer leaves the token empty, which reads as no link.
  unfoldable pub redeem : ℕ → Text → Exec env Session
  redeem now code =
      if is_empty code
      then raise no_break_glass
      else catch (get_del now (break_glass_key code)) (λ found. redeem_token now found)
          (λ e. raise no_break_glass)
