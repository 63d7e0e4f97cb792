-- ===== src/Services/VpnConfigs/Outcome.antt =====
-- What Issue stores and returns, and what Revoke leaves.
use dvarpala.Base.{
  ℕ, ◌≡◌, refl, sym, ap, ◌∙◌, subst, codes, Text, List, [], ◌∷◌, ◌++◌, some, keep, arith, ℤ, true,
}
use dvarpala.Models.{User, VpnConfig}
use dvarpala.Platform.{Env, World, Exec, IsReliable, ok, lift, insert, tables}
use dvarpala.Platform.Database.{Tables, add_row}
use dvarpala.Platform.Rules.{bind-after_ok, bind-ok, insert-ok}
use dvarpala.Services.Audit.{log}
use dvarpala.Services.Users.{Account, get_user_by_email, account_of, normalise_email}
use dvarpala.Services.Users.Standing.{get_user_by_email-ok, get_user_by_email-eq}
use dvarpala.Vpn.Authority.{Ca, ClientCredential, issue_client}
use dvarpala.Services.VpnConfigs.{
  VpnConfigService, active_for, revoke_existing, new_config, store_config, issue_by, revoke_configs,
  issuance,
}
use dvarpala.Services.VpnConfigs.Contents.{Carried, new_config-Carried}
use dvarpala.Services.VpnConfigs.Revoking.{
  config_rows, active_count, revoke_existing-ok, revoke_existing-total, log-config_rows,
}

active_for-new_config :
    (s : VpnConfigService) (ca : Ca) (now user_id : ℕ) (config_name : Text)
    (cred : ClientCredential) (id : ℕ)
    → active_for user_id (new_config s ca now user_id config_name cred id) ≡ true
active_for-new_config s ca now user_id config_name cred id = ground arith

keep_none :
    (user_id : ℕ) (rows : List VpnConfig)
    → active_count user_id rows ≡ 0
    → keep (active_for user_id) rows ≡ []
unfolding keep
keep_none user_id [] h = refl
keep_none user_id (x ∷ rows) h = ground (arith, keep_none user_id rows)

only_new :
    (user_id : ℕ) (c : VpnConfig) (rows : List VpnConfig)
    → active_count user_id rows ≡ 0
    → active_for user_id c ≡ true
    → keep (active_for user_id) (rows ++ c ∷ []) ≡ c ∷ []
unfolding keep
only_new user_id c [] h a = ground arith
only_new user_id c (x ∷ rows) h a = ground (arith, only_new user_id c rows)

module _ {env : Env} where
  store_config-ok :
      (s : VpnConfigService) (ca : Ca) (now : ℕ) (user : User) (config_name : Text)
      (cred : ClientCredential) {c : VpnConfig} (w u : World env)
      → store_config s ca now user config_name cred w ≡ (ok c, u)
      → (c ≡ new_config s ca now user.id config_name cred (tables w).configs.next_id)
        × (config_rows (tables u) ≡ config_rows (tables w) ++ c ∷ [])
  unfolding store_config
  store_config-ok s ca now user config_name cred {c} w u h =
      let row = new_config s ca now user.id config_name cred in
      let q = λ (t : Tables). row t.configs.next_id in
      let f = λ (t : Tables). record t { configs = add_row row t.configs } in
      let (c', v, added, rest) = bind-ok (insert q f) _ h in
      let (_, v', logged, last) = bind-ok (log now (issuance s user cred c')) _ rest in
      let (same, t, k) = insert-ok q f added in
      let kept = log-config_rows now (issuance s user cred c') v v' logged in
      let which : c' ≡ c = ground arith in
      let final : v' ≡ u = ground arith in
      (
        sym which ∙ same,
        ap (λ (x : World env). config_rows (tables x)) (sym final)
            ∙ kept
            ∙ ap config_rows t
            ∙ ap (λ x. config_rows (tables w) ++ x ∷ []) (sym same ∙ which),
      )

  -- A configuration of an account, which carries what the authority has signed for its address.
  abbrev pub Issued :
      VpnConfigService → Ca → ℕ → Text → Text → ℤ → World env → VpnConfig → World env → Type 0
  Issued s ca now email config_name validity w c u =
      (a : Account) × (account_of (normalise_email email) (tables w) ≡ some a)
      × Carried s ca now a.user.id a.user.email config_name validity c
      × (keep (active_for a.user.id) (config_rows (tables u)) ≡ c ∷ [])

  -- Issue succeeds only for an address that has an account whose own address is not empty, and with
  -- a client certificate that the authority has signed for that address: valid from five minutes
  -- ago, for the validity asked for, or a year where that is not positive. The configuration that
  -- it returns is then the only active one of the user. It has the name asked for, or "default",
  -- and carries the signed certificate, its key, the certificate of the authority, in their columns
  -- and in the elements of the profile that are named for them, and the end of the certificate.
  pub issue_by_sound :
      (s : VpnConfigService) (ca : Ca) (now : ℕ) (email config_name : Text) (validity : ℤ)
      {c : VpnConfig} (w u : World env)
      → issue_by s ca now email config_name validity w ≡ (ok c, u)
      → Issued s ca now email config_name validity w c u
  unfolding issue_by
  issue_by_sound s ca now email config_name validity {c} w u h =
      let reason = codes "superseded by a new certificate" in
      let (a, v, got, rest) = bind-ok (get_user_by_email email) _ h in
      let (_, v', revoked, more) = bind-ok (revoke_existing now a.user.id reason) _ rest in
      let (cred, v'', signed, last) =
        bind-ok (lift (issue_client ca now a.user.email validity)) _ more in
      let (there, t, k) = get_user_by_email-ok email got in
      let free = revoke_existing-ok now a.user.id reason v v' revoked in
      let (which, rows) = store_config-ok s ca now a.user config_name cred v'' u last in
      let same : v'' ≡ v' = sym (ap (λ x. x.1) signed) in
      (
        a,
        there,
        subst (Carried s ca now a.user.id a.user.email config_name validity) (sym which) (
            new_config-Carried s ca now a.user.id a.user.email config_name validity cred
              (tables v'').configs.next_id (ap (λ x. x.0) signed)),
        ap (keep (active_for a.user.id))
              (rows ∙ ap (λ (x : World env). config_rows (tables x) ++ c ∷ []) same)
            ∙ only_new a.user.id c (config_rows (tables v')) free (
                ap (active_for a.user.id) which
                ∙ active_for-new_config s ca now a.user.id config_name cred
                    (tables v'').configs.next_id),
      )

  -- On servers that answer: Revoke of an address that has an account succeeds, and leaves its user
  -- without an active configuration.
  pub revoke_configs-none :
      IsReliable env
      → (now : ℕ) (email : Text) (a : Account) (w : World env)
      → account_of (normalise_email email) (tables w) ≡ some a
      → let (r, u) = revoke_configs now email w in
        (r ≡ ok tt) × (keep (active_for a.user.id) (config_rows (tables u)) ≡ [])
  unfolding revoke_configs
  revoke_configs-none up now email a w h =
      let m = get_user_by_email email in
      let v = (m w).1 in
      let reason = codes "revoked by an administrator" in
      let n : Exec env (Unit {0}) = revoke_existing now a.user.id reason in
      let (r, same) = get_user_by_email-eq up email w in
      let got : (m w).0 ≡ ok a = ground arith in
      let step : revoke_configs now email w ≡ n v = bind-after_ok m _ (ap (λ x. (x, v)) got) in
      let done = revoke_existing-total up now a.user.id reason v in
      (
        ap (λ x. x.0) step ∙ done,
        ap (λ x. keep (active_for a.user.id) (config_rows (tables x.1))) step
            ∙ keep_none a.user.id _
                (revoke_existing-ok now a.user.id reason v (n v).1 (ap (λ x. (x, (n v).1)) done)),
      )
