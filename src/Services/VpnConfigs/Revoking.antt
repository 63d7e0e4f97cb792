-- ===== src/Services/VpnConfigs/Revoking.antt =====
-- What the loop of revokeExisting does to the configurations.
use dvarpala.Base.{
  ℕ, ◌≤◌, ◌≡◌, refl, sym, ap, ◌∙◌, ◌&&◌, not, Bool, true, Text, List, [], ◌∷◌, map, keep, any,
  count, All, All-map, ◌==◌, if◌then◌else◌, arith,
}
use dvarpala.Models.{VpnConfig}
use dvarpala.Platform.{Env, World, IsReliable, Result, ok, ◌>>=◌, select, execute, tables}
use dvarpala.Platform.Database.{Tables}
use dvarpala.Platform.Rules.{bind-ok, select-ok, execute-ok}
use dvarpala.Platform.Invariants.{execute-keeps}
use dvarpala.Services.Audit.{Entry, log, append_log}
use dvarpala.Services.Audit.Writing.{log-ok}
use dvarpala.Services.VpnConfigs.{
  active_for, revoke_config, with_configs, revocation, revoke_each, revoke_existing,
}

abbrev pub config_rows : Tables → List VpnConfig
config_rows t = t.configs.rows

unfoldable pub revoke_all : List VpnConfig → List VpnConfig → List VpnConfig
revoke_all [] rows = rows
revoke_all (c ∷ cs) rows = revoke_all cs (map (revoke_config c.id) rows)

abbrev covered : List VpnConfig → VpnConfig → Bool
covered cs x = any (λ c. x.id == c.id) cs

abbrev left_over : ℕ → List VpnConfig → VpnConfig → Bool
left_over user_id cs x = active_for user_id x && not (covered cs x)

-- How many configurations of a user are active.
abbrev pub active_count : ℕ → List VpnConfig → ℕ
active_count user_id rows = count (active_for user_id) rows

pub active_count-revoke :
    (user_id id : ℕ) (rows : List VpnConfig)
    → active_count user_id (map (revoke_config id) rows) ≤ active_count user_id rows
unfolding keep
active_count-revoke user_id id [] = ground arith
active_count-revoke user_id id (x ∷ rows) = ground (arith, active_count-revoke user_id id rows)

count-left_over :
    (user_id : ℕ) (c : VpnConfig) (cs rows : List VpnConfig)
    → count (left_over user_id cs) (map (revoke_config c.id) rows)
      ≡ count (left_over user_id (c ∷ cs)) rows
unfolding keep any
count-left_over user_id c cs [] = refl
count-left_over user_id c cs (x ∷ rows) = ground (arith, count-left_over user_id c cs rows)

count-left_over_nil :
    (user_id : ℕ) (rows : List VpnConfig)
    → active_count user_id rows ≡ count (left_over user_id []) rows
unfolding keep any
count-left_over_nil user_id [] = refl
count-left_over_nil user_id (x ∷ rows) = ground (arith, count-left_over_nil user_id rows)

count-revoke_all :
    (user_id : ℕ) (cs rows : List VpnConfig)
    → active_count user_id (revoke_all cs rows) ≡ count (left_over user_id cs) rows
unfolding revoke_all
count-revoke_all user_id [] rows = count-left_over_nil user_id rows
count-revoke_all user_id (c ∷ cs) rows =
    count-revoke_all user_id cs (map (revoke_config c.id) rows) ∙ count-left_over user_id c cs rows

abbrev Covered : ℕ → List VpnConfig → VpnConfig → Type 0
Covered user_id cs x = active_for user_id x ≡ true → covered cs x ≡ true

Covered-cons :
    (user_id : ℕ) (y : VpnConfig) (cs : List VpnConfig) (x : VpnConfig)
    → Covered user_id cs x
    → Covered user_id (if active_for user_id y then y ∷ cs else cs) x
unfolding any
Covered-cons user_id y cs x h a = ground arith

Covered-keep :
    (user_id : ℕ) (rows : List VpnConfig)
    → All (Covered user_id (keep (active_for user_id) rows)) rows
unfolding keep any
Covered-keep user_id [] = tt
Covered-keep user_id (x ∷ rows) = (
  λ a. ground arith,
  All-map (Covered-cons user_id x (keep (active_for user_id) rows)) rows
      (Covered-keep user_id rows),
)

none_left :
    (user_id : ℕ) (cs rows : List VpnConfig)
    → All (Covered user_id cs) rows
    → count (left_over user_id cs) rows ≡ 0
unfolding keep
none_left user_id cs [] h = refl
none_left user_id cs (x ∷ rows) (h, k) = ground (arith, none_left user_id cs rows k)

pub revoke_all-none :
    (user_id : ℕ) (rows : List VpnConfig)
    → active_count user_id (revoke_all (keep (active_for user_id) rows) rows) ≡ 0
revoke_all-none user_id rows =
    let cs = keep (active_for user_id) rows in
    count-revoke_all user_id cs rows ∙ none_left user_id cs rows (Covered-keep user_id rows)

module _ {env : Env} where
  pub log-config_rows :
      (now : ℕ) (e : Entry) {r : Result (Unit {0})} (w u : World env)
      → log now e w ≡ (r, u)
      → config_rows (tables u) ≡ config_rows (tables w)
  unfolding log
  log-config_rows now e {r} w u h =
      ap (λ x. config_rows (tables x.1)) (sym h)
      ∙ execute-keeps (λ t. config_rows t ≡ config_rows (tables w)) (append_log now e) w refl refl

  revoke_each-ok :
      (now user_id : ℕ) (reason : Text) (cs : List VpnConfig) (w u : World env)
      → revoke_each now user_id reason cs w ≡ (ok tt, u)
      → config_rows (tables u) ≡ revoke_all cs (config_rows (tables w))
  unfolding revoke_each revoke_all
  revoke_each-ok now user_id reason [] w u h = ap (λ x. config_rows (tables x.1)) (sym h)
  revoke_each-ok now user_id reason (c ∷ cs) w u h =
      let f = with_configs (map (revoke_config c.id)) in
      let (_, v, wrote, rest) = bind-ok (execute f) _ h in
      let (_, v', logged, last) = bind-ok (log now (revocation user_id reason c)) _ rest in
      let (t, k) = execute-ok f wrote in
      revoke_each-ok now user_id reason cs v' u last
      ∙ ap (revoke_all cs)
          (log-config_rows now (revocation user_id reason c) v v' logged ∙ ap config_rows t)

  pub revoke_existing-ok :
      (now user_id : ℕ) (reason : Text) (w u : World env)
      → revoke_existing now user_id reason w ≡ (ok tt, u)
      → active_count user_id (config_rows (tables u)) ≡ 0
  unfolding revoke_existing
  revoke_existing-ok now user_id reason w u h =
      let q = λ (t : Tables). keep (active_for user_id) (config_rows t) in
      let (cs, v, read, rest) = bind-ok (select q) (revoke_each now user_id reason) h in
      let (same, t, k) = select-ok q read in
      ap (active_count user_id) (
        revoke_each-ok now user_id reason cs v u rest
        ∙ ap (λ xs. revoke_all xs (config_rows (tables v))) same
        ∙ ap
            (λ (t : Tables).
              revoke_all (keep (active_for user_id) (config_rows (tables w))) (config_rows t))
            t)
      ∙ revoke_all-none user_id (config_rows (tables w))

module _ {env : Env} (up : IsReliable env) where
  revoke_each-total :
      (now user_id : ℕ) (reason : Text) (cs : List VpnConfig) (w : World env)
      → (revoke_each now user_id reason cs w).0 ≡ ok tt
  unfolding revoke_each ◌>>=◌ execute
  revoke_each-total now user_id reason [] w = refl
  revoke_each-total now user_id reason (c ∷ cs) w =
      let v = (execute (with_configs (map (revoke_config c.id))) w).1 in
      let e = revocation user_id reason c in
      ground (
        arith,
        up.database_up w.database,
        log-ok now e v,
        revoke_each-total now user_id reason cs (log now e v).1,
      )

  pub revoke_existing-total :
      (now user_id : ℕ) (reason : Text) (w : World env)
      → (revoke_existing now user_id reason w).0 ≡ ok tt
  unfolding revoke_existing ◌>>=◌ select
  revoke_existing-total now user_id reason w =
      let v = (select (λ t. keep (active_for user_id) (config_rows t)) w).1 in
      let cs = keep (active_for user_id) (config_rows (tables w)) in
      ground (arith, up.database_up w.database, revoke_each-total now user_id reason cs v)
