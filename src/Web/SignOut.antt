-- ===== src/Web/SignOut.antt =====
-- Logout of internal/web/auth.go, and what sessionFor finds after it.
use dvarpala.Base.{
  ℕ, ◌≤◌, ◌≡◌, refl, sym, ap, ◌∙◌, subst, inl, inr, false, Option, none, some, Text, is_empty,
  arith, Bool-cases, Option-cases,
}
use dvarpala.Platform.{Env, World, IsReliable, ok, err, Error, ◌>>=◌, ignore, raise, keys}
use dvarpala.Platform.Rules.{catch-after_err, bind-after_ok, either}
use dvarpala.Platform.Invariants.{catch-keeps}
use dvarpala.Services.Audit.{log}
use dvarpala.Services.Audit.Writing.{log-ok, log-keys}
use dvarpala.Auth.Session.{
  session_key, auth_key, is_no_session, fetch, get_session, get_by_client_ip, revoke,
}
use dvarpala.Auth.Session.Pairing.{session_at}
use dvarpala.Auth.Session.Reachable.{PairedWorld, revoke-Paired, fetch-keys_same, PairedWorld-same}
use dvarpala.Auth.Session.Absence.{
  Within, WithinWorld, fetch-present, revoke-Within, revoke_by_client_ip-Within, revoke-absent,
  revoke_by_client_ip-absent, absent-Within, absent_later, fetch-absent,
}
use dvarpala.Auth.Login.{logout_entry, logout, logout_client_ip}
use dvarpala.Web.{Site, Request, session_for, by_client_ip}
use dvarpala.Web.Portal.{forget_cookie, sign_out}

abbrev sent_by : Option Text → Text → Request
sent_by cookie ip = record { cookie = cookie; client_ip = ip }

module _ {env : Env} (up : IsReliable env) where
  -- Where neither key holds a session, a request has none.
  by_client_ip-absent :
      (now : ℕ) (ip : Text) (w : World env)
      → session_at env.unmarshal now (auth_key ip) (keys w) ≡ none
      → (by_client_ip now ip w).0 ≡ ok none
  by_client_ip-absent now ip w h =
      let (x, e) = fetch-absent up now (auth_key ip) w h in
      let m = get_by_client_ip now ip in
      ap (λ r. r.0) (catch-after_err m _ _ (ap (λ r. (r, (m w).1)) e))

  session_for-absent :
      (now : ℕ) (cookie : Option Text) (ip : Text) (w : World env)
      → ((tok : Text)
          → cookie ≡ some tok
          → is_empty tok ≡ false
          → session_at env.unmarshal now (session_key tok) (keys w) ≡ none)
      → session_at env.unmarshal now (auth_key ip) (keys w) ≡ none
      → (session_for now (sent_by cookie ip) w).0 ≡ ok none
  unfolding session_for
  session_for-absent now none ip w h k = by_client_ip-absent now ip w k
  session_for-absent now (some tok) ip w h k = elim (Bool-cases (is_empty tok)) [
    | inl e ↦ rw e (by_client_ip-absent now ip w k)
    | inr e ↦
        let (x, gone) = fetch-absent up now (session_key tok) w (h tok refl e) in
        let m = get_session now tok in
        let v = (m w).1 in
        let same = fetch-keys_same now (session_key tok) w in
        rw e (
          ap (λ r. r.0) (catch-after_err m _ _ (ap (λ r. (r, v)) gone))
          ∙ by_client_ip-absent now ip v (ap (session_at env.unmarshal now (auth_key ip)) same ∙ k))
  ]

  -- What the logout of a token leaves: its token holds nothing, and the keys are still paired.
  abbrev LoggedOut : ℕ → Text → World env → World env → Type 0
  LoggedOut now tok w u =
      PairedWorld now u
      × WithinWorld u w
      × (session_at env.unmarshal now (session_key tok) (keys u) ≡ none)

  revoked-LoggedOut :
      (now : ℕ) (tok : Text) (w v : World env)
      → keys v ≡ keys w
      → PairedWorld now w
      → LoggedOut now tok w (revoke now tok v).1
  revoked-LoggedOut now tok w v same h = (
    revoke-Paired now tok v (PairedWorld-same now w v same h),
    subst (λ m. Within env.unmarshal (keys (revoke now tok v).1) m) same (revoke-Within now tok v),
    revoke-absent up now tok v,
  )

  fetch-err :
      (now : ℕ) (key : Text) {x : Error} (w v : World env)
      → fetch now key w ≡ (err x, v)
      → (session_at env.unmarshal now key (keys w) ≡ none) × (keys v ≡ keys w)
  fetch-err now key {x} w v e = (
    elim (Option-cases (session_at env.unmarshal now key (keys w))) [
      | inl gone ↦ gone
      | inr (s, there) ↦
          let got = fetch-present up now key s w there in absurd (ground (arith, ap (λ r. r.0) e))
    ],
    ap (λ r. keys r.1) (sym e) ∙ fetch-keys_same now key w,
  )

  logout-LoggedOut :
      (now : ℕ) (tok : Text) (w : World env)
      → PairedWorld now w
      → LoggedOut now tok w (logout now tok w).1
  unfolding logout
  logout-LoggedOut now tok w h =
      let P = LoggedOut now tok w in
      catch-keeps P (get_session now tok) _ _
        (λ s v e.
          let entry = logout_entry s in
          let u = (log now entry v).1 in
          let same =
            log-keys now entry v
            ∙ ap (λ r. keys r.1) (sym e)
            ∙ fetch-keys_same now (session_key tok) w in
          subst (λ r. P r.1)
            (sym (
              bind-after_ok (log now entry) (λ _. revoke now tok)
                (ap (λ r. (r, u)) (log-ok now entry v))))
            (revoked-LoggedOut now tok w u same h))
        (λ x v e.
          let (gone, same) = fetch-err now (session_key tok) w v e in
          either (λ r. P r.1) (is_no_session x) (revoke now tok) (raise {A = Unit {0}} x) {w = v}
            (revoked-LoggedOut now tok w v same h)
            (
              PairedWorld-same now w v same h,
              subst (λ m. Within env.unmarshal m (keys w)) (sym same) (λ t key r k. k),
              ap (session_at env.unmarshal now (session_key tok)) same ∙ gone,
            ))

  -- What a browser that signs out leaves of its cookie's session.
  abbrev Forgotten : ℕ → Option Text → World env → Type 0
  Forgotten now cookie u =
      PairedWorld now u
      × ((tok : Text)
          → cookie ≡ some tok
          → is_empty tok ≡ false
          → session_at env.unmarshal now (session_key tok) (keys u) ≡ none)

  forget_cookie-Forgotten :
      (site : Site env) (now : ℕ) (cookie : Option Text) (ip : Text) (w : World env)
      → PairedWorld now w
      → let (r, u) = forget_cookie site now (sent_by cookie ip) w in
        (r ≡ ok tt) × Forgotten now cookie u
  unfolding forget_cookie ignore
  forget_cookie-Forgotten site now none ip w h = (refl, (h, λ tok e _. absurd (cc)))
  forget_cookie-Forgotten site now (some t) ip w h = elim (Bool-cases (is_empty t)) [
    | inl e ↦ rw e (refl, (h, λ tok same ne. absurd (ground arith)))
    | inr e ↦
        let (paired, within, gone) = logout-LoggedOut now t w h in
        rw e (
          refl,
          (
            paired,
            λ tok same ne.
                let which : tok ≡ t = cc in
                ap (λ x. session_at env.unmarshal now (session_key x) (keys (logout now t w).1))
                  which
                ∙ gone,
          ),
        )
  ]

  -- On servers that answer, where the keys of sessions are paired: after Logout the browser has no
  -- session, neither by its cookie, whatever it holds, nor by its address, at once and for good.
  pub sign_out-session_for :
      (site : Site env) (now later : ℕ) (r : Request) (w : World env)
      → PairedWorld now w
      → now ≤ later
      → (session_for later r (sign_out site now r w).1).0 ≡ ok none
  unfolding sign_out ignore ◌>>=◌
  sign_out-session_for site now later r w h le =
      let v = (forget_cookie site now r w).1 in
      let u = (logout_client_ip now r.client_ip v).1 in
      let (done, (paired, gone)) = forget_cookie-Forgotten site now r.cookie r.client_ip w h in
      let away = revoke_by_client_ip-absent up now r.client_ip v paired in
      let within = revoke_by_client_ip-Within now r.client_ip v in
      let left : (sign_out site now r w).1 ≡ u =
        ap (λ x. x.1) (bind-after_ok (forget_cookie site now r) _ (ap (λ x. (x, v)) done)) in
      subst (λ (x : World env). (session_for later r x).0 ≡ ok none) (sym left)
        (session_for-absent later r.cookie r.client_ip u
          (λ tok e ne. absent_later env.unmarshal now later (session_key tok) (keys u) le (
            absent-Within env.unmarshal now (session_key tok) (keys u) (keys v) within
              (gone tok e ne)))
          (absent_later env.unmarshal now later (auth_key r.client_ip) (keys u) le away))
