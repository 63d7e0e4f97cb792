-- ===== src/Auth/Login/Terms.antt =====
-- internal/auth/service.go and internal/auth/provider.go: providers, the settings of the login flow,
-- and what it records.
use dvarpala.Base.{
  ℕ, ◌*◌, ◌++◌, Bool, true, false, not, any, none, some, List, [], ◌∷◌, Text, codes, text_eq,
  is_empty, to_lower, trim_space, after_last?, map, keep,
}
use dvarpala.Models.{Session, text, texts, minute}
use dvarpala.Platform.{Env, Exec}
use dvarpala.Services.Audit.{Entry}
use dvarpala.Services.Users.{Account}
use dvarpala.Auth.BreakGlass.{group_names, entry}

abbrev pub state_ttl : ℕ
state_ttl = 10 * minute

-- provider.go: what a provider tells of whoever has logged in.
pub record UserInfo : Type 0 where
  pub email : Text
  pub name : Text
  pub provider : Text

pub record Provider (env : Env) : Type 0 where
  pub name : Text
  pub auth_url : Text → Text
  pub exchange : ℕ → Text → Exec env UserInfo

pub record Service (env : Env) : Type 0 where
  pub providers : List (Provider env)
  pub session_ttl : ℕ
  -- Whether the allow-list of the database is there, and the list for where it is not.
  pub has_domains : Bool
  pub allowed_domains : List Text
  pub has_otp : Bool
  pub has_break_glass : Bool

unfoldable pub state_key : Text → Text
state_key state = codes "oauth_state:" ++ state

-- normaliseDomains
unfoldable pub normalise_domains : List Text → List Text
normalise_domains ds = keep (λ d. not (is_empty d)) (map (λ d. to_lower (trim_space d)) ds)

-- The fallback of domainAllowed.
abbrev pub in_list : List Text → Text → Bool
in_list [] email = true
in_list (d ∷ ds) email = elim (after_last? b'@' email) [
  | none ↦ false
  | some r ↦ any (text_eq (to_lower r)) (d ∷ ds)
]

-- "provider|client"
abbrev pub state_prefix : Text → Text
state_prefix provider = provider ++ (b'|' ∷ [])

abbrev pub login_session : Account → UserInfo → Text → Session
login_session a info client_ip = record {
  token = [];
  user_id = a.user.id;
  email = a.user.email;
  provider = info.provider;
  groups = group_names a;
  client_ip = client_ip;
  issued_at = 0;
  expires = 0;
}

-- What is recorded of a login.
abbrev pub login_entry : Account → UserInfo → Text → Entry
login_entry a info client_ip = entry (some a.user.id) "authentication_success" client_ip (
    ("email", text a.user.email)
    ∷ ("provider", text info.provider)
    ∷ ("groups", texts (group_names a))
    ∷ [])

-- What is recorded of a code that was sent.
abbrev pub code_sent : Text → Text → Entry
code_sent email client_ip = entry none "signin_code_sent" client_ip (("email", text email) ∷ [])

-- What is recorded of a logout.
abbrev pub logout_entry : Session → Entry
logout_entry sess =
    entry (some sess.user_id) "logout" sess.client_ip (("email", text sess.email) ∷ [])
