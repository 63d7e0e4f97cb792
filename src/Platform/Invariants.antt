-- ===== src/Platform/Invariants.antt =====
-- Rules for what holds of the servers after a step however it ends, and whether or not they answer.
use dvarpala.Base.{◌≡◌, sym, subst, inl, inr, Bool-cases}
use dvarpala.Platform.{
  Env, World, Exec, ok, err, Error, ◌>>=◌, catch, select, execute, insert, redis_set, tables, keys,
}
use dvarpala.Platform.Rules.{
  run-cases, bind-after_ok, bind-after_err, catch-after_ok, catch-after_err,
}
use dvarpala.Platform.Redis.{Keyspace}
use dvarpala.Platform.Database.{Tables}

module _ {env : Env} {A B : Type 0} (P : World env → Type 0) where
  pub bind-keeps :
      (m : Exec env A) (f : A → Exec env B) {w : World env}
      → P (m w).1
      → ((a : A) (v : World env) → m w ≡ (ok a, v) → P v → P (f a v).1)
      → P ((m >>= f) w).1
  bind-keeps m f {w} h k = elim (run-cases m w) [
    | inl (a, v, e) ↦
        subst (λ r. P r.1) (sym (bind-after_ok m f e)) (k a v e (subst (λ r. P r.1) e h))
    | inr (x, v, e) ↦ subst (λ r. P r.1) (sym (bind-after_err m f e)) (subst (λ r. P r.1) e h)
  ]

  pub catch-keeps :
      (m : Exec env A) (f : A → Exec env B) (g : Error → Exec env B) {w : World env}
      → ((a : A) (v : World env) → m w ≡ (ok a, v) → P (f a v).1)
      → ((x : Error) (v : World env) → m w ≡ (err x, v) → P (g x v).1)
      → P (catch m f g w).1
  catch-keeps m f g {w} h k = elim (run-cases m w) [
    | inl (a, v, e) ↦ subst (λ r. P r.1) (sym (catch-after_ok m f g e)) (h a v e)
    | inr (x, v, e) ↦ subst (λ r. P r.1) (sym (catch-after_err m f g e)) (k x v e)
  ]

module _ {env : Env} (P : Keyspace → Type 0) where
  pub redis_set-keeps :
      (f : Keyspace → Keyspace) (w : World env)
      → P (keys w)
      → P (f (keys w))
      → P (keys (redis_set f w).1)
  unfolding redis_set
  redis_set-keeps f w h k = elim (Bool-cases (env.redis.up w.redis)) [
    | inl e ↦ subst P (sym (env.redis.view-update f w.redis e)) k
    | inr e ↦ subst P (sym (env.redis.view-update_down f w.redis e)) h
  ]

module _ {env : Env} (P : Tables → Type 0) where
  pub select-keeps :
      {A : Type 0} (q : Tables → A) (w : World env) → P (tables w) → P (tables (select q w).1)
  unfolding select
  select-keeps q w h = subst P (sym (env.database.view-query w.database)) h

  pub execute-keeps :
      (f : Tables → Tables) (w : World env)
      → P (tables w)
      → P (f (tables w))
      → P (tables (execute f w).1)
  unfolding execute
  execute-keeps f w h k = elim (Bool-cases (env.database.up w.database)) [
    | inl e ↦ subst P (sym (env.database.view-update f w.database e)) k
    | inr e ↦ subst P (sym (env.database.view-update_down f w.database e)) h
  ]

  pub insert-keeps :
      {A : Type 0} (q : Tables → A) (f : Tables → Tables) (w : World env)
      → P (tables w)
      → P (f (tables w))
      → P (tables (insert q f w).1)
  unfolding insert
  insert-keeps q f w h k = elim (Bool-cases (env.database.up w.database)) [
    | inl e ↦ subst P (sym (env.database.view-update f w.database e)) k
    | inr e ↦ subst P (sym (env.database.view-update_down f w.database e)) h
  ]
