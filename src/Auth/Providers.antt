-- ===== src/Auth/Providers.antt =====
-- internal/auth/google.go and internal/auth/dev.go: the providers that say who has logged in. What
-- Google answers to a request, read from its JSON, is a parameter, none where there is no answer or
-- where it cannot be read.
pub mod Proved
use dvarpala.Base.{
  ℕ, ◌&&◌, ◌||◌, not, Bool, true, false, Text, codes, List, [], ◌∷◌, ◌++◌, map, Option, none, some,
  is_empty, any, to_lower, trim_space, text_eq, join, query_escape, ◌==◌, if◌then◌else◌,
}
use dvarpala.Platform.{
  Env, Exec, pure, raise, ◌>>=◌, not_configured, no_code, not_an_email, refused_code, no_token,
  no_profile, no_email, unverified_email,
}
use dvarpala.Auth.Login.{UserInfo, Provider}

pub record GoogleProvider : Type 0 where
  pub client_id : Text
  pub client_secret : Text
  pub redirect_url : Text
  pub hosted_domain : Text

pub record TokenReply : Type 0 where
  pub access_token : Text
  pub error : Text

pub record Profile : Type 0 where
  pub email : Text
  pub verified_email : Bool
  pub name : Text

pub record ProfileReply : Type 0 where
  pub status : ℕ
  pub body : Option Profile

-- What Google answers to the form of a token request, and to a token.
pub record GoogleApi : Type 0 where
  pub token : List (Text × Text) → Option TokenReply
  pub user_info : Text → Option ProfileReply

abbrev pub is_blank : Text → Bool
is_blank s = is_empty (trim_space s)

-- NewGoogleProvider, none for its errors.
unfoldable pub new_google_provider : Text → Text → Text → Text → Option GoogleProvider
new_google_provider client_id client_secret redirect_url hosted_domain =
    if is_blank client_id || is_blank client_secret
    then none
    else if is_blank redirect_url
    then none
    else some (record {
      client_id = client_id;
      client_secret = client_secret;
      redirect_url = redirect_url;
      hosted_domain = hosted_domain;
    })

-- Encode of url.Values, whose keys are in order already.
abbrev pub encode : List (Text × Text) → Text
encode fields = join (b'&' ∷ []) (map (λ f. query_escape f.0 ++ b'=' ∷ query_escape f.1) fields)

abbrev pub google_auth_url : Text
google_auth_url = codes "https://accounts.google.com/o/oauth2/v2/auth"

unfoldable pub google_query : GoogleProvider → Text → List (Text × Text)
google_query g state =
    let rest =
      (codes "prompt", codes "select_account")
      ∷ (codes "redirect_uri", g.redirect_url)
      ∷ (codes "response_type", codes "code")
      ∷ (codes "scope", codes "openid email profile")
      ∷ (codes "state", state)
      ∷ [] in
    (codes "client_id", g.client_id)
    ∷ (if is_empty g.hosted_domain then rest else (codes "hd", g.hosted_domain) ∷ rest)

abbrev pub token_form : GoogleProvider → Text → List (Text × Text)
token_form g code =
    (codes "code", code)
    ∷ (codes "client_id", g.client_id)
    ∷ (codes "client_secret", g.client_secret)
    ∷ (codes "redirect_uri", g.redirect_url)
    ∷ (codes "grant_type", codes "authorization_code")
    ∷ []

-- Guard of DevProvider
unfoldable pub dev_allowed : Text → Bool
dev_allowed mode = text_eq (to_lower (trim_space mode)) (codes "debug")

-- What stands before the first "@".
unfoldable pub local_part : Text → Text
local_part [] = []
local_part (c ∷ s) = let rest = local_part s in if c == b'@' then [] else c ∷ rest

module _ {env : Env} where
  -- exchangeCode, past the request.
  abbrev pub token_of : Option TokenReply → Exec env Text
  token_of none = raise no_token
  token_of (some r) =
      if not (is_empty r.error)
      then raise refused_code
      else if is_empty r.access_token
      then raise no_token
      else pure r.access_token

  unfoldable pub exchange_code : GoogleApi → GoogleProvider → Text → Exec env Text
  exchange_code api g code = token_of (api.token (token_form g code))

  -- fetchUserInfo, past the request.
  abbrev pub identity_of : Option Profile → Exec env UserInfo
  identity_of none = raise no_profile
  identity_of (some p) =
      if is_empty p.email
      then raise no_email
      else if not p.verified_email
      then raise unverified_email
      else pure (record { email = to_lower p.email; name = p.name; provider = codes "google" })

  abbrev pub profile_of : Option ProfileReply → Exec env UserInfo
  profile_of none = raise no_profile
  profile_of (some r) = if not (r.status == 200) then raise no_profile else identity_of r.body

  unfoldable pub fetch_user_info : GoogleApi → Text → Exec env UserInfo
  fetch_user_info api token = profile_of (api.user_info token)

  -- Exchange of GoogleProvider
  unfoldable pub google_exchange : GoogleApi → GoogleProvider → Text → Exec env UserInfo
  google_exchange api g code =
      if is_blank code
      then raise no_code
      else do token ← exchange_code api g code; fetch_user_info api token

  unfoldable pub google_provider : GoogleApi → GoogleProvider → Provider env
  google_provider api g = record {
    name = codes "google";
    auth_url = λ state. google_auth_url ++ b'?' ∷ encode (google_query g state);
    exchange = λ now code. google_exchange api g code;
  }

  -- Exchange of DevProvider
  unfoldable pub dev_exchange : Text → Exec env UserInfo
  dev_exchange code =
      let email = to_lower (trim_space code) in
      let name = local_part email in
      if is_empty email || not (any (λ c. c == b'@') email)
      then raise not_an_email
      else pure (record {
        email = email;
        name = if is_empty name then email else name;
        provider = codes "dev";
      })

  unfoldable pub dev_provider : Provider env
  dev_provider = record {
    name = codes "dev";
    auth_url = λ state. codes "/dev/login?state=" ++ query_escape state;
    exchange = λ now code. dev_exchange code;
  }
