-- ===== src/Web/Portal.antt =====
-- internal/web/auth.go and internal/web/notfound.go: the handlers of the portal.
use dvarpala.Base.{
  query_escape, ℕ, ◌-◌, ◌/◌, Bool, true, false, Text, codes, [], ◌++◌, Option, none, some, is_empty,
  text_eq, has_prefix, if◌then◌else◌,
}
use dvarpala.Models.{Session, second}
use dvarpala.Platform.{
  Env, Exec, Error, bad_state, domain_blocked, pure, ◌>>=◌, ◌>>◌, catch, ignore,
}
use dvarpala.Auth.Login.{begin, complete, redeem_break_glass, logout, logout_client_ip}
use dvarpala.Web.{
  Site, Request, given, cleared, Body, redirect, portal_page, success_page, error_page,
  not_found_page, no_endpoint, signed_out, status, Response, plain, is_admin, default_to,
  session_for, offers_code,
}

-- errorCode
unfoldable pub error_code : Error → Text
error_code bad_state = codes "INVALID_STATE"
error_code domain_blocked = codes "DOMAIN_NOT_ALLOWED"
error_code _ = codes "NOT_AUTHORISED"

-- hintFor
unfoldable pub hint_for : Text → Text
hint_for c =
    if text_eq c (codes "INVALID_STATE")
    then codes "Every sign-in can only be used once, and going back in your "
      ++ codes "browser returns you to one that has already been spent. Start "
      ++ codes "again from the sign-in page rather than pressing back."
    else if text_eq c (codes "DOMAIN_NOT_ALLOWED")
    then codes "This network only admits certain email domains. If that "
      ++ codes "address is the right one for your work, an administrator has to "
      ++ codes "add its domain."
    else if text_eq c (codes "NOT_AUTHORISED")
    then codes "You proved the address is yours, but it has no access here - "
      ++ codes "either no account, or one that has been deactivated. An "
      ++ codes "administrator can grant it."
    else if text_eq c (codes "PROVIDER_UNAVAILABLE")
    then codes "That way of signing in is not switched on for this server. "
      ++ codes "Go back to the sign-in page and use one of the methods it offers."
    else if text_eq c (codes "NOT_REDEEMABLE")
    then codes "Emergency access links work once and expire quickly. Ask for a new one."
    else []

-- fail: the codes, the reason and the provider are values of a query.
unfoldable pub failure_url : Text → Text → Text → Text
failure_url provider code reason =
    codes "/auth/error?code="
    ++ query_escape code
    ++ codes "&reason="
    ++ query_escape reason
    ++ codes "&provider="
    ++ query_escape provider

abbrev pub fail : Text → Text → Text → Response
fail provider code reason = plain (redirect (failure_url provider code reason))

-- DevLoginSubmit
unfoldable pub dev_login_submit : Text → Text → Response
dev_login_submit email state = plain (
    redirect (
      codes "/auth/dev/callback?code="
      ++ query_escape email
      ++ codes "&state="
      ++ query_escape state))

module _ {env : Env} (site : Site env) (now : ℕ) (r : Request) where
  -- The response to a browser that has got a session.
  abbrev pub welcome : Session → Response
  welcome sess = record {
    body = redirect (codes "/auth/success");
    set_cookie = given sess.token ((sess.expires - now) / second) site.secure_cookies;
  }

  abbrev pub portal_body : Option Session → Body
  portal_body none = portal_page (offers_code site.service) []
  portal_body (some sess) = redirect (codes "/auth/success")

  unfoldable pub portal : Exec env Response
  portal = do sess ← session_for now r; pure (plain (portal_body sess))

  unfoldable pub begin_login : Option Text → Text → Exec env Response
  begin_login random provider =
      catch (begin site.service now random provider r.client_ip)
        (λ url. pure (plain (redirect url)))
        (λ e. pure (fail provider (codes "PROVIDER_UNAVAILABLE") (site.error_text e)))

  unfoldable pub callback : Option Text → Text → Text → Text → Exec env Response
  callback random provider code state =
      catch (complete site.service now random provider code state r.client_ip)
        (λ sess. pure (welcome sess)) (λ e. pure (fail provider (error_code e) (site.error_text e)))

  unfoldable pub break_glass : Text → Exec env Response
  break_glass code =
      catch (redeem_break_glass site.service now code r.client_ip) (λ sess. pure (welcome sess))
        (λ e. pure (fail (codes "break-glass") (codes "NOT_REDEEMABLE") (site.error_text e)))

  abbrev pub success_body : Option Session → Body
  success_body none = redirect (codes "/")
  success_body (some sess) = success_page (record {
    username = sess.email;
    provider = sess.provider;
    timestamp = site.format_time sess.issued_at;
    expires = site.format_time sess.expires;
    client_ip = sess.client_ip;
    admin = is_admin sess;
  })

  unfoldable pub success : Exec env Response
  success = do sess ← session_for now r; pure (plain (success_body sess))

  -- Failure, of the query's code, reason and provider.
  unfoldable pub failure : Text → Text → Text → Response
  failure code reason provider =
      let c = default_to code (codes "AUTH_FAILED") in
      plain (
        error_page (record {
          reason = default_to reason (codes "Authentication failed. Please try again.");
          error_code = c;
          hint = hint_for c;
          provider = provider;
          timestamp = site.format_time now;
        }))

  abbrev pub status_body : Option Session → Body
  status_body none = signed_out
  status_body (some sess) = status (record {
    user = sess.email;
    provider = sess.provider;
    groups = sess.groups;
    expires_at = site.format_rfc3339 sess.expires;
  })

  unfoldable pub auth_status : Exec env Response
  auth_status = do sess ← session_for now r; pure (plain (status_body sess))

  -- The session of the cookie, if the browser sends one.
  unfoldable pub forget_cookie : Exec env (Unit {0})
  forget_cookie = elim r.cookie [
    | none ↦ pure tt
    | some t ↦ if is_empty t then pure tt else ignore (logout now t)
  ]

  unfoldable pub sign_out : Exec env Response
  sign_out = do
    forget_cookie
    ignore (logout_client_ip now r.client_ip)
    pure (record { body = redirect (codes "/"); set_cookie = cleared site.secure_cookies })

  abbrev pub missing_body : Option Session → Body
  missing_body none = redirect (codes "/")
  missing_body (some sess) = not_found_page (record {
    reason = codes "That page does not exist.";
    error_code = codes "NOT_FOUND";
    hint = [];
    provider = [];
    timestamp = site.format_time now;
  })

  -- NotFound, of a path, with a service to ask.
  unfoldable pub not_found : Text → Exec env Response
  not_found path =
      if has_prefix (codes "/api/") path
      then pure (plain (no_endpoint path))
      else do sess ← session_for now r; pure (plain (missing_body sess))

-- secureCookies, of the mode of the server.
abbrev pub secure_cookies : Text → Bool
secure_cookies mode = if text_eq mode (codes "debug") then false else true
