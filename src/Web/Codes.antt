-- ===== src/Web/Codes.antt =====
-- internal/web/otp.go: the pages of signing in with a code.
use dvarpala.Base.{query_escape, ℕ, Bool, true, false, Text, codes, [], ◌++◌, Option, if◌then◌else◌}
use dvarpala.Platform.{Env, Exec, Error, too_soon, pure, catch}
use dvarpala.Auth.Login.{new_login_attempt, request_code, verify_code}
use dvarpala.Web.{
  Site, Request, Step, redirect, portal_page, code_page, Response, plain, offers_code,
}

-- errors.Is(err, ErrTooSoon)
abbrev pub is_too_soon : Error → Bool
is_too_soon too_soon = true
is_too_soon _ = false

-- render: a page of the flow, which shows an error where there is one.
abbrev pub page : Step → Text → Text → Text → Response
page step state email error =
    plain (code_page (record { step = step; state = state; email = email; error = error }))

-- Form, of the query's state.
abbrev pub form : Text → Response
form state = page Step.email state [] []

-- Where the login goes on after a code was right: the state is the code too.
unfoldable pub callback_url : Text → Text
callback_url state =
    codes "/auth/otp/callback?code=" ++ query_escape state ++ codes "&state=" ++ query_escape state

module _ {env : Env} (site : Site env) (now : ℕ) (r : Request) where
  unfoldable pub send : Option ℕ → Text → Text → Exec env Response
  send random email state =
      catch (request_code site.service now random email r.client_ip)
        (λ _. pure (page Step.code state email []))
        (λ e.
          let step = if is_too_soon e then Step.code else Step.email in
          pure (page step state email (site.error_text e)))

  unfoldable pub start : Option Text → Option ℕ → Text → Exec env Response
  start token random email =
      catch (new_login_attempt now token (codes "otp") r.client_ip)
        (λ state. send random email state)
        (λ e. pure (plain (portal_page (offers_code site.service) (site.error_text e))))

  -- Request, of an attempt that is there already.
  abbrev pub resend : Option ℕ → Text → Text → Exec env Response
  resend random email state = send random email state

  unfoldable pub verify : Text → Text → Text → Exec env Response
  verify email code state =
      catch (verify_code site.service now email code state)
        (λ _. pure (plain (redirect (callback_url state))))
        (λ e. pure (page Step.code state email (site.error_text e)))
