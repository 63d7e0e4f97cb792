-- ===== src/Auth/Providers/Proved.antt =====
-- internal/auth/google.go: what an identity from Google rests on.
use dvarpala.Base.{
  ◌≡◌, refl, subst, inl, inr, true, false, Text, Option, none, some, is_empty, to_lower, Bool-cases,
  arith,
}
use dvarpala.Platform.{Env, World, ok, ◌>>=◌}
use dvarpala.Platform.Rules.{bind-ok}
use dvarpala.Auth.Login.{UserInfo}
use dvarpala.Auth.Providers.{
  GoogleApi, GoogleProvider, TokenReply, Profile, ProfileReply, token_form, token_of, exchange_code,
  identity_of, profile_of, fetch_user_info, google_exchange, is_blank,
}

-- The answer to a token, from which an identity is read.
abbrev pub IsIdentity : GoogleApi → Text → UserInfo → Type 0
IsIdentity api token info =
    (r : ProfileReply) × (p : Profile) × (api.user_info token ≡ some r)
    × (r.status ≡ 200)
    × (r.body ≡ some p)
    × (p.verified_email ≡ true)
    × (is_empty p.email ≡ false)
    × (info.email ≡ to_lower p.email)

abbrev pub IsProved : GoogleApi → GoogleProvider → Text → UserInfo → Type 0
IsProved api g code info =
    (t : TokenReply) × (api.token (token_form g code) ≡ some t)
    × (is_empty t.error ≡ true)
    × (is_empty t.access_token ≡ false)
    × IsIdentity api t.access_token info

module _ {env : Env} (w u : World env) {info : UserInfo} where
  identity_of-ok :
      (o : Option Profile)
      → identity_of o w ≡ (ok info, u)
      → (p : Profile) × (o ≡ some p)
        × (p.verified_email ≡ true)
        × (is_empty p.email ≡ false)
        × (info.email ≡ to_lower p.email)
  identity_of-ok none h = absurd (ground arith)
  identity_of-ok (some p) h = (p, refl, ground arith, ground arith, ground arith)

  profile_of-ok :
      (api : GoogleApi) (token : Text) (o : Option ProfileReply)
      → api.user_info token ≡ o
      → profile_of o w ≡ (ok info, u)
      → IsIdentity api token info
  profile_of-ok api token none e h = absurd (ground arith)
  profile_of-ok api token (some r) e h =
      let status : r.status ≡ 200 = ground arith in
      let k : identity_of r.body w ≡ (ok info, u) = ground arith in
      let (p, body, verified, email, same) = identity_of-ok r.body k in
      (r, p, e, status, body, verified, email, same)

module _ {env : Env} (w u : World env) where
  token_of-ok :
      (o : Option TokenReply) {token : Text}
      → token_of o w ≡ (ok token, u)
      → (t : TokenReply) × (o ≡ some t)
        × (is_empty t.error ≡ true)
        × (is_empty t.access_token ≡ false)
        × (token ≡ t.access_token)
  token_of-ok none h = absurd (ground arith)
  token_of-ok (some t) h = (t, refl, ground arith, ground arith, ground arith)

module _ {env : Env} (w u : World env) where
  -- An identity that the exchange with Google gives, at any code, was read from an answer of status
  -- 200 to a token that Google had given for that code without an error; the answer says that the
  -- address is verified, and the identity has that address, in lower case.
  pub google_exchange-IsProved :
      (api : GoogleApi) (g : GoogleProvider) (code : Text) (info : UserInfo)
      → google_exchange api g code w ≡ (ok info, u)
      → IsProved api g code info
  unfolding google_exchange exchange_code fetch_user_info
  google_exchange-IsProved api g code info h = elim (Bool-cases (is_blank code)) [
    | inl b ↦ absurd (ground arith)
    | inr b ↦
        let k : (exchange_code api g code >>= fetch_user_info api) w ≡ (ok info, u) =
          ground arith in
        let (token, v, m, f) = bind-ok (exchange_code api g code) (fetch_user_info api) k in
        let (t, e, no_error, given, same) = token_of-ok w v (api.token (token_form g code)) m in
        (
          t,
          e,
          no_error,
          given,
          subst (λ s. IsIdentity api s info) same
              (profile_of-ok v u api token (api.user_info token) refl f),
        )
  ]
