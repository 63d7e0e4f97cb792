-- ===== src/Web/Admin.antt =====
-- internal/web/admin.go: the administration console. The services that it needs besides those of
-- the portal, the hash of a form token (hex of SHA-256), the JSON of an audit record's details and
-- a further layout of time.Format are parameters; what the browser sends besides the cookie are
-- arguments. A page is the fields that its template may render.
pub mod Guards
pub mod Actions
pub mod Pages
use dvarpala.Base.{
  is_unreserved, hex_digit, query_escape, ℕ, ◌+◌, ◌-◌, ◌*◌, ◌/◌, ◌%◌, ◌&&◌, ◌||◌, not, Bool, true,
  false, String, Text, codes, List, [], ◌∷◌, ◌++◌, Option, none, some, is_empty, text_eq, take,
  length, ltb, leb, ◌==◌, if◌then◌else◌, pos, show_int,
}
use dvarpala.Models.{Session, User, Group, Resource, AllowedDomain, Detail, second, minute, hour}
use dvarpala.Platform.{Env, Exec, Result, ok, err, Error, pure, ◌>>=◌, ◌>>◌, catch}
use dvarpala.Services.Users.{Account}
use dvarpala.Services.Groups.{Roster}
use dvarpala.Services.Permissions.{AccessGrant}
use dvarpala.Services.VpnConfigs.{VpnConfigService}
use dvarpala.Web.{Site, Request, session_for, is_admin}

pub record AdminSite (env : Env) : Type 0 where
  pub site : Site env
  pub configs : VpnConfigService
  pub csrf_hash : Text → Text
  pub details_json : List (String × Detail) → Text
  -- "2006-01-02 15:04"
  pub format_minute : ℕ → Text

-- One person signed in at this moment.
pub record LiveRow : Type 0 where
  pub email : Text
  pub provider : Text
  pub client_ip : Text
  pub groups : Text
  pub since : Text
  pub remaining : Text
  pub on_tunnel : Bool

-- One person's most recent sign-in.
pub record SignInRow : Type 0 where
  pub email : Text
  pub status : Text
  pub when : Text
  pub ago : Text

pub record AuditRow : Type 0 where
  pub id : ℕ
  pub when : Text
  pub email : Text
  pub action : String
  pub ip : Text
  pub details : Text

pub record KindRow : Type 0 where
  pub action : String
  pub count : ℕ

pub record AdminView : Type 0 where
  pub page : Text
  pub session : Option Session
  pub csrf : Text
  pub notice : Text
  pub error : Text
  pub users : List Account
  pub groups : List Roster
  pub resources : List Resource
  pub domains : List AllowedDomain
  pub user : Option Account
  pub grants : List AccessGrant
  pub allowed : Bool
  pub deny_msg : Text
  pub live : List LiveRow
  pub sign_ins : List SignInRow
  pub trail : List AuditRow
  pub kinds : List KindRow
  pub filter_email : Text
  pub filter_kind : Text

abbrev pub blank_view : Text → AdminView
blank_view page = record {
  page = page;
  session = none;
  csrf = [];
  notice = [];
  error = [];
  users = [];
  groups = [];
  resources = [];
  domains = [];
  user = none;
  grants = [];
  allowed = false;
  deny_msg = [];
  live = [];
  sign_ins = [];
  trail = [];
  kinds = [];
  filter_email = [];
  filter_kind = [];
}

pub data AdminReply : Type 0 where
  redirect : Text → AdminReply
  page : AdminView → AdminReply
  denied : AdminView → AdminReply
  form_expired : AdminReply
  -- A download: its name and its contents.
  attachment : Text → Text → AdminReply

-- csrfToken
unfoldable pub csrf_token : (Text → Text) → Text → Text
csrf_token csrf_hash session_token = csrf_hash (codes "dvarpala-csrf|" ++ session_token)

-- url.PathEscape
abbrev pub is_path_byte : ℕ → Bool
is_path_byte c =
    is_unreserved c || c == b'$' || c == b'&' || c == b'+' || c == b'=' || c == b':' || c == b'@'

unfoldable pub path_escape : Text → Text
path_escape [] = []
path_escape (c ∷ s) =
    let rest = path_escape s in
    if is_path_byte c then c ∷ rest else b'%' ∷ hex_digit (c / 16) ∷ hex_digit (c % 16) ∷ rest

-- back: an error's text, or the message.
abbrev pub back : {A : Type 0} → (Error → Text) → Text → Text → Result A → AdminReply
back error_text path message (ok a) = redirect (path ++ codes "?ok=" ++ query_escape message)
back error_text path message (err e) =
    redirect (path ++ codes "?err=" ++ query_escape (error_text e))

-- The duration in units: at most two of them.
abbrev pub digits : ℕ → Text
digits n = show_int (pos n)

unfoldable pub human_duration : ℕ → Text
human_duration d =
    let minutes = d / minute % 60 in
    let hours = d / hour in
    if d == 0
    then codes "expired"
    else if ltb d minute
    then codes "under a minute"
    else if ltb d hour
    then digits (d / minute) ++ codes "m"
    else if ltb d (24 * hour)
    then (if ltb 0 minutes
        then digits hours ++ codes "h " ++ digits minutes ++ codes "m"
        else digits hours ++ codes "h")
    else if ltb 0 (hours % 24)
    then digits (hours / 24) ++ codes "d " ++ digits (hours % 24) ++ codes "h"
    else digits (hours / 24) ++ codes "d"

-- truncate: the ellipsis is three bytes.
unfoldable pub truncate : Text → ℕ → Text
truncate s n = if leb (length s) n then s else take n s ++ b'\xE2' ∷ b'\x80' ∷ b'\xA6' ∷ []

module _ {env : Env} (admin : AdminSite env) (now : ℕ) (r : Request) where
  abbrev pub admitted : (Session → Exec env AdminReply) → Option Session → Exec env AdminReply
  admitted next none = pure (redirect (codes "/"))
  admitted next (some sess) =
      if is_admin sess
      then next sess
      else pure (denied (record (blank_view (codes "denied")) { session = some sess }))

  -- requireAdmin, in front of a handler.
  unfoldable pub require_admin : (Session → Exec env AdminReply) → Exec env AdminReply
  require_admin next = do sess ← session_for now r; admitted next sess

  -- requireCSRF, behind requireAdmin and in front of a handler.
  unfoldable pub require_csrf :
      Text → (Session → Exec env AdminReply) → Session → Exec env AdminReply
  require_csrf csrf next sess =
      if text_eq (csrf_token admin.csrf_hash sess.token) csrf then next sess else pure form_expired

-- Handler.render: ok and err of the query, and what went wrong now.
abbrev pub shown_error : {A : Type 0} → (Error → Text) → Text → Text → Result A → Text
shown_error error_text own asked (ok a) = if is_empty own then asked else own
shown_error error_text own asked (err e) = error_text e

abbrev pub render :
    {env : Env} {A : Type 0}
    → AdminSite env
    → Session
    → Text
    → Text
    → AdminView
    → Result A
    → AdminReply
render admin sess asked_ok asked_err v r = page (record v {
  session = some sess;
  csrf = csrf_token admin.csrf_hash sess.token;
  notice = asked_ok;
  error = shown_error admin.site.error_text v.error asked_err r;
})
