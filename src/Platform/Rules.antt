-- ===== src/Platform/Rules.antt =====
-- Rules for what holds after a step that succeeds: each gives the result of the step and what the
-- servers hold after it.
use dvarpala.Base.{ap, ◌≡◌, refl, ◌∙◌, ◌⊎◌, inl, inr, arith, Bool, true, false, if◌then◌else◌}
use dvarpala.Platform.{
  Env, World, Exec, Result, ok, err, Error, continue, raise, ◌>>=◌, catch, on_error, pure,
  redis_get, redis_set, redis_call, select, execute, insert, keys, tables,
}
use dvarpala.Platform.Redis.{Keyspace}
use dvarpala.Platform.Database.{Tables}

module _ {env : Env} {A B : Type 0} where
  pub bind-ok :
      (m : Exec env A) (f : A → Exec env B) {b : B} {w u : World env}
      → (m >>= f) w ≡ (ok b, u)
      → (a : A) × (v : World env) × (m w ≡ (ok a, v)) × (f a v ≡ (ok b, u))
  unfolding ◌>>=◌
  bind-ok m f {b} {w} {u} h = go (m w) refl h
    where
      go :
          (r : Result A × World env)
          → m w ≡ r
          → continue f raise r ≡ (ok b, u)
          → (a : A) × (v : World env) × (m w ≡ (ok a, v)) × (f a v ≡ (ok b, u))
      go (ok a, v) e k = (a, v, e, k)
      go (err x, v) e k = cc

  pub catch-ok :
      (m : Exec env A) (f : A → Exec env B) (g : Error → Exec env B) {b : B} {w u : World env}
      → catch m f g w ≡ (ok b, u)
      → ((a : A) × (v : World env) × (m w ≡ (ok a, v)) × (f a v ≡ (ok b, u)))
        ⊎ ((x : Error) × (v : World env) × (m w ≡ (err x, v)) × (g x v ≡ (ok b, u)))
  unfolding catch
  catch-ok m f g {b} {w} {u} h = go (m w) refl h
    where
      go :
          (r : Result A × World env)
          → m w ≡ r
          → continue f g r ≡ (ok b, u)
          → ((a : A) × (v : World env) × (m w ≡ (ok a, v)) × (f a v ≡ (ok b, u)))
            ⊎ ((x : Error) × (v : World env) × (m w ≡ (err x, v)) × (g x v ≡ (ok b, u)))
      go (ok a, v) e k = inl (a, v, e, k)
      go (err x, v) e k = inr (x, v, e, k)

module _ {env : Env} where
  pub redis_get-ok :
      {A : Type 0} (q : Keyspace → A) {a : A} {w u : World env}
      → redis_get q w ≡ (ok a, u)
      → (a ≡ q (keys w)) × (keys u ≡ keys w) × (tables u ≡ tables w)
  unfolding redis_get
  redis_get-ok q {a} {w} {u} h =
      (ground arith, ground (arith, env.redis.view-query w.redis), ground arith)

  pub redis_set-ok :
      (f : Keyspace → Keyspace) {w u : World env}
      → redis_set f w ≡ (ok tt, u)
      → (keys u ≡ f (keys w)) × (tables u ≡ tables w)
  unfolding redis_set
  redis_set-ok f {w} {u} h = (ground (arith, env.redis.view-update f w.redis), ground arith)

  pub redis_call-ok :
      {A : Type 0} (q : Keyspace → A) (f : Keyspace → Keyspace) {a : A} {w u : World env}
      → redis_call q f w ≡ (ok a, u)
      → (a ≡ q (keys w)) × (keys u ≡ f (keys w)) × (tables u ≡ tables w)
  unfolding redis_call
  redis_call-ok q f {a} {w} {u} h =
      (ground arith, ground (arith, env.redis.view-update f w.redis), ground arith)

  pub select-ok :
      {A : Type 0} (q : Tables → A) {a : A} {w u : World env}
      → select q w ≡ (ok a, u)
      → (a ≡ q (tables w)) × (tables u ≡ tables w) × (keys u ≡ keys w)
  unfolding select
  select-ok q {a} {w} {u} h =
      (ground arith, ground (arith, env.database.view-query w.database), ground arith)

  pub execute-ok :
      (f : Tables → Tables) {w u : World env}
      → execute f w ≡ (ok tt, u)
      → (tables u ≡ f (tables w)) × (keys u ≡ keys w)
  unfolding execute
  execute-ok f {w} {u} h = (ground (arith, env.database.view-update f w.database), ground arith)

  pub insert-ok :
      {A : Type 0} (q : Tables → A) (f : Tables → Tables) {a : A} {w u : World env}
      → insert q f w ≡ (ok a, u)
      → (a ≡ q (tables w)) × (tables u ≡ f (tables w)) × (keys u ≡ keys w)
  unfolding insert
  insert-ok q f {a} {w} {u} h =
      (ground arith, ground (arith, env.database.view-update f w.database), ground arith)

module _ {env : Env} {A : Type 0} where
  pub on_error-ok :
      (m : Exec env A) (report : Error → Exec env (Unit {0})) {a : A} {w u : World env}
      → on_error m report w ≡ (ok a, u)
      → m w ≡ (ok a, u)
  unfolding on_error
  on_error-ok m report {a} {w} {u} h = elim (catch-ok m pure _ h) [
    | inl (b, v, e, f) ↦ e ∙ f
    | inr (x, v, e, f) ↦ elim (catch-ok (report x) (λ _. raise x) (λ _. raise x) f) [
      | inl (_, y, _, g) ↦ cc
      | inr (_, y, _, g) ↦ cc
    ]
  ]

  -- What a test that chooses between two steps has chosen.
  pub if-ok :
      (b : Bool) (m n : Exec env A) {r : Result A × World env} {w : World env}
      → (if b then m else n) w ≡ r
      → ((b ≡ true) × (m w ≡ r)) ⊎ ((b ≡ false) × (n w ≡ r))
  if-ok true m n h = inl (refl, h)
  if-ok false m n h = inr (refl, h)

  -- What both branches of a choice have, the choice has.
  pub either :
      (P : Result A × World env → Type 0) (b : Bool) (m n : Exec env A) {w : World env}
      → P (m w)
      → P (n w)
      → P ((if b then m else n) w)
  either P true m n h k = h
  either P false m n h k = k

  -- A step succeeds or fails.
  pub run-cases :
      (m : Exec env A) (w : World env)
      → ((a : A) × (v : World env) × (m w ≡ (ok a, v)))
        ⊎ ((x : Error) × (v : World env) × (m w ≡ (err x, v)))
  run-cases m w = go (m w) refl
    where
      go :
          (r : Result A × World env)
          → m w ≡ r
          → ((a : A) × (v : World env) × (m w ≡ (ok a, v)))
            ⊎ ((x : Error) × (v : World env) × (m w ≡ (err x, v)))
      go (ok a, v) e = inl (a, v, e)
      go (err x, v) e = inr (x, v, e)

module _ {env : Env} {A B : Type 0} (m : Exec env A) where
  -- What follows a step that has succeeded, and one that has failed.
  pub catch-after_ok :
      (f : A → Exec env B) (g : Error → Exec env B) {a : A} {w v : World env}
      → m w ≡ (ok a, v)
      → catch m f g w ≡ f a v
  unfolding catch
  catch-after_ok f g {a} {w} {v} h = ap (continue f g) h

  pub catch-after_err :
      (f : A → Exec env B) (g : Error → Exec env B) {x : Error} {w v : World env}
      → m w ≡ (err x, v)
      → catch m f g w ≡ g x v
  unfolding catch
  catch-after_err f g {x} {w} {v} h = ap (continue f g) h

  pub bind-after_ok :
      (f : A → Exec env B) {a : A} {w v : World env} → m w ≡ (ok a, v) → (m >>= f) w ≡ f a v
  unfolding ◌>>=◌
  bind-after_ok f {a} {w} {v} h = ap (continue f raise) h

  pub bind-after_err :
      (f : A → Exec env B) {x : Error} {w v : World env}
      → m w ≡ (err x, v)
      → (m >>= f) w ≡ (err x, v)
  unfolding ◌>>=◌
  bind-after_err f {x} {w} {v} h = ap (continue f raise) h
