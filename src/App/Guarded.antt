-- ===== src/App/Guarded.antt =====
-- internal/app/app.go: what a start outside debug mode leaves out.
use dvarpala.Base.{
  ℕ, ◌≡◌, refl, subst, sym, inl, inr, Bool, true, false, Text, codes, List, [], ◌∷◌, ◌++◌, map,
  find, Option, none, some, text_eq, All, arith, is_empty, Bool-cases,
}
use dvarpala.Platform.{Env, World, ok, err, unknown_provider}
use dvarpala.Platform.Rules.{bind-ok}
use dvarpala.Services.Domains.{seed_from_config}
use dvarpala.Auth.Login.{Provider, get_provider, otp_provider}
use dvarpala.Auth.Providers.{
  GoogleApi, GoogleProvider, new_google_provider, google_provider, dev_allowed,
}
use dvarpala.Auth.Mail.{Sent, done, failed}
use dvarpala.Auth.Mail.Choice.{
  Mailer, by_brevo, by_smtp, by_log, new_mailer, Chosen, new_mailer-Chosen, log_mailer_allowed,
}
use dvarpala.App.{
  Settings, Dvarpala, Way, google_made, google_way, mailer_made, mailer_way, mailer_of, otp_way,
  dev_way, assembled, new_dvarpala,
}

module _ {env : Env} where
  -- A provider that is not the development login.
  abbrev IsReal : Way env → Type 0
  IsReal x = text_eq x.0.name (codes "dev") ≡ false

  All-ways :
      (P : Way env → Type 0) (xs ys : List (Way env)) → All P xs → All P ys → All P (xs ++ ys)
  All-ways P [] ys h k = k
  All-ways P (x ∷ xs) ys (p, h) k = (p, All-ways P xs ys h k)

  find_real :
      (ws : List (Way env))
      → All IsReal ws
      → find (λ (p : Provider env). text_eq p.name (codes "dev")) (map (λ (x : Way env). x.0) ws)
        ≡ none
  unfolding find
  find_real [] h = refl
  find_real (x ∷ ws) (p, h) = rw p (find_real ws h)

  google_made-IsReal :
      (api : GoogleApi) (o : Option GoogleProvider) {ws : List (Way env)} (w u : World env)
      → google_made api o w ≡ (ok ws, u)
      → All IsReal ws
  unfolding google_provider text_eq
  google_made-IsReal api none w u h = absurd (ground arith)
  google_made-IsReal api (some g) {ws} w u h =
      let made : (google_provider api g, codes "Google login enabled") ∷ [] ≡ ws = ground arith in
      subst (All IsReal) made (refl, tt)

  google_way-IsReal :
      (api : GoogleApi) (st : Settings) {ws : List (Way env)} (w u : World env)
      → google_way api st w ≡ (ok ws, u)
      → All IsReal ws
  unfolding google_way
  google_way-IsReal api st {ws} w u h = elim (Bool-cases (is_empty st.google_client_id)) [
    | inl e ↦ let made : [] ≡ ws = ground arith in subst (All IsReal) made tt
    | inr e ↦
        let o =
          new_google_provider st.google_client_id st.google_client_secret st.google_redirect_url
            [] in
        let k : google_made api o w ≡ (ok ws, u) = ground arith in google_made-IsReal api o w u k
  ]

-- A mailer that is not the server's own log.
abbrev pub is_log : Option Mailer → Bool
is_log (some by_log) = true
is_log (some (by_brevo m)) = false
is_log (some (by_smtp m)) = false
is_log none = false

otp_way-IsReal : (env : Env) (o : Option (Mailer × Text)) → All (IsReal {env = env}) (otp_way o)
unfolding otp_provider text_eq
otp_way-IsReal env none = tt
otp_way-IsReal env (some m) = (refl, tt)

Chosen-is_log :
    (st : Settings) (m : Mailer × Text)
    → Chosen st.mail (done m)
    → dev_allowed st.mail.server_mode ≡ false
    → is_log (some m.0) ≡ false
unfolding dev_allowed log_mailer_allowed
Chosen-is_log st (by_brevo b, t) c d = refl
Chosen-is_log st (by_smtp b, t) c d = refl
Chosen-is_log st (by_log, t) c d = absurd (ground (arith, c.1.1))

mailer_made-is_log :
    {env : Env} (st : Settings) (r : Sent (Mailer × Text)) {o : Option (Mailer × Text)}
    (w u : World env)
    → Chosen st.mail r
    → dev_allowed st.mail.server_mode ≡ false
    → mailer_made r w ≡ (ok o, u)
    → is_log (mailer_of o) ≡ false
mailer_made-is_log st (failed e) w u c d h = absurd (ground arith)
mailer_made-is_log st (done m) {o} w u c d h =
    let made : some m ≡ o = ground arith in
    subst (λ x. is_log (mailer_of x) ≡ false) made (Chosen-is_log st m c d)

mailer_way-is_log :
    {env : Env} (st : Settings) {o : Option (Mailer × Text)} (w u : World env)
    → dev_allowed st.mail.server_mode ≡ false
    → mailer_way st w ≡ (ok o, u)
    → is_log (mailer_of o) ≡ false
unfolding mailer_way
mailer_way-is_log st {o} w u d h = elim (Bool-cases st.otp_enabled) [
  | inr e ↦
      let made : none ≡ o = ground arith in subst (λ x. is_log (mailer_of x) ≡ false) made refl
  | inl e ↦
      let k : mailer_made (new_mailer st.mail) w ≡ (ok o, u) = ground arith in
      mailer_made-is_log st (new_mailer st.mail) w u (new_mailer-Chosen st.mail) d k
]

module _ {env : Env} where
  dev_way_none :
      (st : Settings) → dev_allowed st.mail.server_mode ≡ false → dev_way {env = env} st ≡ []
  dev_way_none st d = rw d refl

  -- After a start that succeeds outside debug mode, the development login is not a known provider,
  -- and codes are not written to the server's own log.
  pub new_dvarpala-guarded :
      (api : GoogleApi) (now : ℕ) (st : Settings) (app : Dvarpala env) (w u : World env)
      → dev_allowed st.mail.server_mode ≡ false
      → new_dvarpala api now st w ≡ (ok app, u)
      → ((v : World env) → (get_provider app.auth (codes "dev") v).0 ≡ err unknown_provider)
        × (is_log app.mailer ≡ false)
  unfolding new_dvarpala get_provider
  new_dvarpala-guarded api now st app w u d h =
      let (google, w1, g, rest) = bind-ok (google_way api st) _ h in
      let (mail, w2, m, rest') = bind-ok (mailer_way st) _ rest in
      let (x, w3, seeded, last) = bind-ok (seed_from_config now st.allowed_domains) _ rest' in
      let ways = google ++ otp_way mail ++ dev_way st in
      let made : assembled st ways mail ≡ app = ground arith in
      let real : All IsReal ways =
        All-ways IsReal (google ++ otp_way mail) (dev_way st)
          (All-ways IsReal google (otp_way mail) (google_way-IsReal api st w w1 g)
            (otp_way-IsReal env mail))
          (subst (All IsReal) (sym (dev_way_none st d)) tt) in
      let none_such = find_real ways real in
      subst
        (λ (a : Dvarpala env).
          ((v : World env) → (get_provider a.auth (codes "dev") v).0 ≡ err unknown_provider)
          × (is_log a.mailer ≡ false))
        made (λ v. rw none_such refl, mailer_way-is_log st w1 w2 d m)
