-- ===== src/Web.antt =====
-- internal/web: what the handlers of the portal and of the console share. A request is what a
-- handler reads of it: the session cookie, the address of the client, and, as arguments of the
-- handler, the fields of the form or of the query. The layouts of time.Format, the texts of errors
-- and the hash of a form token are parameters.
pub mod Escaping
pub mod Portal
pub mod Codes
pub mod SignOut
pub mod SignIn
pub mod Admin
use dvarpala.Base.{
  query_escape, ℕ, ◌+◌, ◌-◌, ◌/◌, ◌%◌, ◌&&◌, ◌||◌, not, Bool, true, false, Text, codes, List, [],
  ◌∷◌, ◌++◌, Option, none, some, any, is_empty, text_eq, ltb, leb, ◌==◌, if◌then◌else◌,
}
use dvarpala.Models.{Session, second}
use dvarpala.Platform.{Env, Exec, Error, pure, ◌>>=◌, catch}
use dvarpala.Auth.Session.{get_session, get_by_client_ip}
use dvarpala.Auth.Login.{Service, Provider}

pub record Site (env : Env) : Type 0 where
  pub service : Service env
  pub secure_cookies : Bool
  pub error_text : Error → Text
  pub format_time : ℕ → Text
  pub format_rfc3339 : ℕ → Text

pub record Request : Type 0 where
  -- The cookie dvarpala_session, where the browser sends one.
  pub cookie : Option Text
  pub client_ip : Text

-- The cookie that a response sets: a token is given with a lifetime in seconds, and whether it is Secure.
pub data SetCookie : Type 0 where
  unset : SetCookie
  given : Text → ℕ → Bool → SetCookie
  cleared : Bool → SetCookie

-- The fields of the page after a login.
pub record SuccessView : Type 0 where
  pub username : Text
  pub provider : Text
  pub timestamp : Text
  pub expires : Text
  pub client_ip : Text
  pub admin : Bool

pub record ErrorView : Type 0 where
  pub reason : Text
  pub error_code : Text
  pub hint : Text
  pub provider : Text
  pub timestamp : Text

pub record StatusView : Type 0 where
  pub user : Text
  pub provider : Text
  pub groups : List Text
  pub expires_at : Text

pub data Step : Type 0 where
  email code : Step

pub record OtpView : Type 0 where
  pub step : Step
  pub state : Text
  pub email : Text
  pub error : Text

-- A redirect, the pages with the fields that they show, and the JSON answers.
pub data Body : Type 0 where
  redirect : Text → Body
  portal_page : Bool → Text → Body
  code_page : OtpView → Body
  success_page : SuccessView → Body
  error_page : ErrorView → Body
  not_found_page : ErrorView → Body
  no_endpoint : Text → Body
  signed_out : Body
  status : StatusView → Body

pub record Response : Type 0 where
  pub body : Body
  pub set_cookie : SetCookie

abbrev pub plain : Body → Response
plain b = record { body = b; set_cookie = unset }

abbrev pub admin_group : Text
admin_group = codes "system_admins"

-- isAdmin
unfoldable pub is_admin : Session → Bool
is_admin sess = any (text_eq admin_group) sess.groups

abbrev pub default_to : Text → Text → Text
default_to v fallback = if is_empty v then fallback else v

module _ {env : Env} where
  abbrev pub by_client_ip : ℕ → Text → Exec env (Option Session)
  by_client_ip now client_ip =
      catch (get_by_client_ip now client_ip) (λ sess. pure (some sess)) (λ e. pure none)

  -- sessionFor: the cookie, then the address of the client.
  unfoldable pub session_for : ℕ → Request → Exec env (Option Session)
  session_for now r = elim r.cookie [
    | none ↦ by_client_ip now r.client_ip
    | some token ↦
        if is_empty token
        then by_client_ip now r.client_ip
        else catch (get_session now token) (λ sess. pure (some sess))
            (λ e. by_client_ip now r.client_ip)
  ]

-- portalView: whether the emailed code can be offered.
unfoldable pub offers_code : {env : Env} → Service env → Bool
offers_code s = any (λ p. text_eq p.name (codes "otp")) s.providers
