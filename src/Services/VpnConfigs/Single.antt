-- ===== src/Services/VpnConfigs/Single.antt =====
-- How many credentials of a user are active, after issuing and after revoking.
use dvarpala.Base.{
  ℕ, ◌+◌, ◌≤◌, ◌≡◌, refl, sym, subst, codes, Text, List, [], ◌∷◌, ◌++◌, Option, none, some, map,
  keep, arith, ℤ, ◌==◌, if◌then◌else◌,
}
use dvarpala.Models.{User, VpnConfig}
use dvarpala.Platform.{Env, World, ok, err, Result, ◌>>=◌, lift, select, execute, insert, tables}
use dvarpala.Platform.Database.{Tables, add_row}
use dvarpala.Platform.Invariants.{select-keeps, execute-keeps, insert-keeps, bind-keeps}
use dvarpala.Services.Audit.{Entry, log}
use dvarpala.Services.Users.{found_account, Account, get_user_by_email, account_of, normalise_email}
use dvarpala.Vpn.Authority.{Ca, ClientCredential, issue_client}
use dvarpala.Services.VpnConfigs.{
  VpnConfigService, active_for, revoke_config, with_configs, revocation, revoke_each,
  revoke_existing, new_config, store_config, issue_by, issuance,
}
use dvarpala.Services.VpnConfigs.Revoking.{
  config_rows, active_count, active_count-revoke, revoke_existing-ok, log-config_rows,
}

-- Nobody has two active configurations.
abbrev pub Single : Tables → Type 0
Single t = (user_id : ℕ) → active_count user_id (config_rows t) ≤ 1

active_count-append :
    (user_id : ℕ) (c : VpnConfig) (rows : List VpnConfig)
    → active_count user_id (rows ++ c ∷ [])
      ≤ active_count user_id rows + (if c.user_id == user_id then 1 else 0)
unfolding keep
active_count-append user_id c [] = ground arith
active_count-append user_id c (x ∷ rows) = ground (arith, active_count-append user_id c rows)

fewer : (id : ℕ) (t : Tables) → Single t → Single (with_configs (map (revoke_config id)) t)
fewer id t h user_id = ground (arith, active_count-revoke user_id id (config_rows t), h user_id)

module _ {env : Env} where
  log-Single :
      (now : ℕ) (e : Entry) (w : World env) → Single (tables w) → Single (tables (log now e w).1)
  log-Single now e w h user_id =
      subst (λ rows. active_count user_id rows ≤ 1)
        (sym (log-config_rows now e w (log now e w).1 refl)) (h user_id)

Single-append :
    (t : Tables) (row : ℕ → VpnConfig)
    → active_count (row t.configs.next_id).user_id (config_rows t) ≡ 0
    → Single t
    → Single (record t { configs = add_row row t.configs })
Single-append t row free h user_id =
    let c = row t.configs.next_id in
    ground (arith, active_count-append user_id c (config_rows t), h user_id)

module _ {env : Env} where
  revoke_each-Single :
      (now user_id : ℕ) (reason : Text) (cs : List VpnConfig) (w : World env)
      → Single (tables w)
      → Single (tables (revoke_each now user_id reason cs w).1)
  unfolding revoke_each
  revoke_each-Single now user_id reason [] w h = h
  revoke_each-Single now user_id reason (c ∷ cs) w h =
      let f = with_configs (map (revoke_config c.id)) in
      let P = λ (v : World env). Single (tables v) in
      bind-keeps P (execute f) _ (execute-keeps Single f w h (fewer c.id (tables w) h)) (λ _ v _ k.
        bind-keeps P (log now (revocation user_id reason c)) _ (log-Single now _ v k)
          (λ _ v' _ l. revoke_each-Single now user_id reason cs v' l))

  revoke_existing-Single :
      (now user_id : ℕ) (reason : Text) (w : World env)
      → Single (tables w)
      → Single (tables (revoke_existing now user_id reason w).1)
  unfolding revoke_existing
  revoke_existing-Single now user_id reason w h =
      let q = λ (t : Tables). keep (active_for user_id) (config_rows t) in
      bind-keeps (λ (v : World env). Single (tables v)) (select q) (revoke_each now user_id reason)
        (select-keeps Single q w h) (λ cs v _ k. revoke_each-Single now user_id reason cs v k)

  found_account-Single :
      (o : Option Account) (w : World env)
      → Single (tables w)
      → Single (tables (found_account o w).1)
  found_account-Single none w h = h
  found_account-Single (some a) w h = h

  get_user_by_email-Single :
      (email : Text) (w : World env)
      → Single (tables w)
      → Single (tables (get_user_by_email email w).1)
  unfolding get_user_by_email
  get_user_by_email-Single email w h =
      let q = account_of (normalise_email email) in
      bind-keeps (λ (v : World env). Single (tables v)) (select q) found_account
        (select-keeps Single q w h) (λ o v _ k. found_account-Single o v k)

  store_config-Single :
      (s : VpnConfigService) (ca : Ca) (now : ℕ) (user : User) (config_name : Text)
      (cred : ClientCredential) (w : World env)
      → active_count user.id (config_rows (tables w)) ≡ 0
      → Single (tables w)
      → Single (tables (store_config s ca now user config_name cred w).1)
  unfolding store_config
  store_config-Single s ca now user config_name cred w free h =
      let row = new_config s ca now user.id config_name cred in
      let q = λ (t : Tables). row t.configs.next_id in
      let f = λ (t : Tables). record t { configs = add_row row t.configs } in
      bind-keeps (λ (v : World env). Single (tables v)) (insert q f) _
        (insert-keeps Single q f w h (Single-append (tables w) row free h))
        (λ c v _ k.
          bind-keeps (λ (x : World env). Single (tables x)) (log now (issuance s user cred c)) _
            (log-Single now _ v k) (λ _ _ _ l. l))

  signed-Single :
      (s : VpnConfigService) (ca : Ca) (now : ℕ) (user : User) (config_name : Text)
      (r : Result ClientCredential) (w : World env)
      → active_count user.id (config_rows (tables w)) ≡ 0
      → Single (tables w)
      → Single (tables ((lift r >>= store_config s ca now user config_name) w).1)
  unfolding ◌>>=◌
  signed-Single s ca now user config_name (ok cred) w free h =
      store_config-Single s ca now user config_name cred w free h
  signed-Single s ca now user config_name (err e) w free h = h

  -- However Issue ends, and whether or not the database answers: if no user had two active
  -- configurations before, none has afterwards.
  pub issue_by-Single :
      (s : VpnConfigService) (ca : Ca) (now : ℕ) (email config_name : Text) (validity : ℤ)
      (w : World env)
      → Single (tables w)
      → Single (tables (issue_by s ca now email config_name validity w).1)
  unfolding issue_by
  issue_by-Single s ca now email config_name validity w h =
      let P = λ (v : World env). Single (tables v) in
      bind-keeps P (get_user_by_email email) _ (get_user_by_email-Single email w h) (λ a v _ k.
        let reason = codes "superseded by a new certificate" in
        bind-keeps P (revoke_existing now a.user.id reason) _
          (revoke_existing-Single now a.user.id reason v k)
          (λ _ v' e l.
            signed-Single s ca now a.user config_name (issue_client ca now a.user.email validity) v'
              (revoke_existing-ok now a.user.id reason v v' e) l))
