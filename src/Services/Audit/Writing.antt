-- ===== src/Services/Audit/Writing.antt =====
-- What Log returns, and what it leaves in the tables.
use dvarpala.Base.{ℕ, ◌≡◌, refl, ap, ◌∙◌}
use dvarpala.Platform.{Env, World, IsReliable, ok, execute, tables, keys}
use dvarpala.Platform.Redis.{Keyspace}
use dvarpala.Platform.Database.{Tables}
use dvarpala.Platform.Runs.{Runs}
use dvarpala.Services.Audit.{Entry, log, append_log}

module _ {env : Env} where
  pub log-ok : (now : ℕ) (e : Entry) (w : World env) → (log now e w).0 ≡ ok tt
  unfolding log
  log-ok now e w = refl

  pub log-keys : (now : ℕ) (e : Entry) (w : World env) → keys (log now e w).1 ≡ keys w
  unfolding log execute
  log-keys now e w = refl

module _ {env : Env} (up : IsReliable env) where
  pub log-tables :
      (now : ℕ) (e : Entry) (w : World env) → tables (log now e w).1 ≡ append_log now e (tables w)
  unfolding log execute
  log-tables now e w =
      env.database.view-update (append_log now e) w.database (up.database_up w.database)

  pub log-Runs :
      (now : ℕ) (e : Entry) {K : Keyspace} {T : Tables}
      → Runs {env = env} (log now e) K T (ok tt) K (append_log now e T)
  unfolding log
  log-Runs now e {K} {T} w k t =
      ((log now e w).1, refl, log-keys now e w ∙ k, log-tables now e w ∙ ap (append_log now e) t)
