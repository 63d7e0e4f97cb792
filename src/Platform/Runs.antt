-- ===== src/Platform/Runs.antt =====
-- Operations on servers that answer, as what they do to the values that the servers hold.
use dvarpala.Base.{ap, ◌≡◌, refl, ◌∙◌, Bool, true, false, if◌then◌else◌, arith}
use dvarpala.Platform.{
  Env, World, Exec, IsReliable, Result, ok, err, Error, raise, pure, ◌>>=◌, catch, on_error, ignore,
  redis_get, redis_set, redis_call, select, execute, keys, tables,
}
use dvarpala.Platform.Rules.{catch-after_ok, catch-after_err, bind-after_ok, bind-after_err}
use dvarpala.Platform.Redis.{Keyspace}
use dvarpala.Platform.Database.{Tables}

-- From servers that hold K and T, an operation returns r and leaves K' and T'.
abbrev pub Runs :
    {env : Env} {A : Type 0}
    → Exec env A
    → Keyspace
    → Tables
    → Result A
    → Keyspace
    → Tables
    → Type 0
Runs {env} m K T r K' T' =
    (w : World env)
    → keys w ≡ K
    → tables w ≡ T
    → (v : World env) × (m w ≡ (r, v)) × (keys v ≡ K') × (tables v ≡ T')

module _ {env : Env} {A : Type 0} {K : Keyspace} {T : Tables} where
  pub pure-Runs : (a : A) → Runs {env = env} (pure a) K T (ok a) K T
  pure-Runs a w k t = (w, refl, k, t)

  pub raise-Runs : (e : Error) → Runs {env = env} {A = A} (raise e) K T (err e) K T
  raise-Runs e w k t = (w, refl, k, t)

module _ {env : Env} {A B : Type 0} {K K' K'' : Keyspace} {T T' T'' : Tables} (m : Exec env A) where
  pub bind-Runs :
      (f : A → Exec env B) {a : A} {r : Result B}
      → Runs m K T (ok a) K' T'
      → Runs (f a) K' T' r K'' T''
      → Runs (m >>= f) K T r K'' T''
  bind-Runs f first rest w k t =
      let (v, e, k', t') = first w k t in
      let (u, e', k'', t'') = rest v k' t' in (u, bind-after_ok m f e ∙ e', k'', t'')

  pub catch-Runs :
      (f : A → Exec env B) (g : Error → Exec env B) {a : A} {r : Result B}
      → Runs m K T (ok a) K' T'
      → Runs (f a) K' T' r K'' T''
      → Runs (catch m f g) K T r K'' T''
  catch-Runs f g first rest w k t =
      let (v, e, k', t') = first w k t in
      let (u, e', k'', t'') = rest v k' t' in (u, catch-after_ok m f g e ∙ e', k'', t'')

  pub catch-Runs_err :
      (f : A → Exec env B) (g : Error → Exec env B) {x : Error} {r : Result B}
      → Runs m K T (err x) K' T'
      → Runs (g x) K' T' r K'' T''
      → Runs (catch m f g) K T r K'' T''
  catch-Runs_err f g first rest w k t =
      let (v, e, k', t') = first w k t in
      let (u, e', k'', t'') = rest v k' t' in (u, catch-after_err m f g e ∙ e', k'', t'')

module _ {env : Env} {A : Type 0} {K K' : Keyspace} {T T' : Tables} (m : Exec env A) where
  pub bind-Runs_err :
      {B : Type 0} (f : A → Exec env B) {x : Error}
      → Runs m K T (err x) K' T'
      → Runs (m >>= f) K T (err x) K' T'
  bind-Runs_err f first w k t =
      let (v, e, k', t') = first w k t in (v, bind-after_err m f e, k', t')

  pub on_error-Runs :
      (report : Error → Exec env (Unit {0})) {a : A}
      → Runs m K T (ok a) K' T'
      → Runs (on_error m report) K T (ok a) K' T'
  unfolding on_error
  on_error-Runs report {a} h = catch-Runs m pure _ h (pure-Runs a)

  pub ignore-Runs : {r : Result A} → Runs m K T r K' T' → Runs (ignore m) K T (ok tt) K' T'
  unfolding ignore
  ignore-Runs {r} h w k t =
      let (v, e, k', t') = h w k t in (v, ap (λ (x : Result A × World env). (ok tt, x.1)) e, k', t')

  -- A run of one operation is a run of an equal one, from and to equal values.
  pub Runs-if :
      (b : Bool) (n : Exec env A) {r : Result A}
      → b ≡ true
      → Runs m K T r K' T'
      → Runs (if b then m else n) K T r K' T'
  Runs-if b n e h = rw e h

  pub Runs-else :
      (b : Bool) (n : Exec env A) {r : Result A}
      → b ≡ false
      → Runs m K T r K' T'
      → Runs (if b then n else m) K T r K' T'
  Runs-else b n e h = rw e h

module _ {env : Env} (up : IsReliable env) {K : Keyspace} {T : Tables} where
  pub redis_get-Runs :
      {A : Type 0} (q : Keyspace → A) → Runs {env = env} (redis_get q) K T (ok (q K)) K T
  unfolding redis_get
  redis_get-Runs q w k t = (
    record w { redis = env.redis.query w.redis },
    ground (arith, up.redis_up w.redis),
    env.redis.view-query w.redis ∙ k,
    t,
  )

  pub redis_set-Runs :
      (f : Keyspace → Keyspace) → Runs {env = env} (redis_set f) K T (ok tt) (f K) T
  unfolding redis_set
  redis_set-Runs f w k t = (
    record w { redis = env.redis.update f w.redis },
    ground (arith, up.redis_up w.redis),
    env.redis.view-update f w.redis (up.redis_up w.redis) ∙ ap f k,
    t,
  )

  pub redis_call-Runs :
      {A : Type 0} (q : Keyspace → A) (f : Keyspace → Keyspace)
      → Runs {env = env} (redis_call q f) K T (ok (q K)) (f K) T
  unfolding redis_call
  redis_call-Runs q f w k t = (
    record w { redis = env.redis.update f w.redis },
    ground (arith, up.redis_up w.redis),
    env.redis.view-update f w.redis (up.redis_up w.redis) ∙ ap f k,
    t,
  )

  pub select-Runs : {A : Type 0} (q : Tables → A) → Runs {env = env} (select q) K T (ok (q T)) K T
  unfolding select
  select-Runs q w k t = (
    record w { database = env.database.query w.database },
    ground (arith, up.database_up w.database),
    k,
    env.database.view-query w.database ∙ t,
  )

  pub execute-Runs : (f : Tables → Tables) → Runs {env = env} (execute f) K T (ok tt) K (f T)
  unfolding execute
  execute-Runs f w k t = (
    record w { database = env.database.update f w.database },
    ground (arith, up.database_up w.database),
    k,
    env.database.view-update f w.database (up.database_up w.database) ∙ ap f t,
  )

module _ {env : Env} {A : Type 0} {K K' : Keyspace} {T T' : Tables} (m : Exec env A) where
  -- What a run says of the operation at a world.
  pub outcome :
      {r : Result A} (w : World env)
      → Runs m K T r K' T'
      → keys w ≡ K
      → tables w ≡ T
      → let (x, u) = m w in (x ≡ r) × (keys u ≡ K') × (tables u ≡ T')
  outcome w h k t =
      let (v, e, k', t') = h w k t in
      (ap (λ x. x.0) e, ap (λ x. keys x.1) e ∙ k', ap (λ x. tables x.1) e ∙ t')

-- The keys that an operation leaves.
pub Runs-keys :
    {env : Env} {A : Type 0} {m : Exec env A} (w : World env) {r : Result A} {K' : Keyspace}
    {T' : Tables}
    → Runs m (keys w) (tables w) r K' T'
    → keys (m w).1 ≡ K'
Runs-keys w runs = let (v, e, k, t) = runs w refl refl in ap (λ x. keys x.1) e ∙ k
