-- ===== src/Auth/Session/Running.antt =====
-- internal/auth/session.go on a Redis that answers, as what each operation does to its keys.
use dvarpala.Base.{
  ℕ, ◌≡◌, Bool, true, false, Option, none, some, Text, if◌then◌else◌, arith, Bool-cases, inl, inr,
}
use dvarpala.Models.{Session}
use dvarpala.Platform.{
  Env, IsReliable, ok, err, Error, Result, ◌>>=◌, no_session, bad_payload, raise, pure, redis_get,
  redis_set,
}
use dvarpala.Platform.Runs.{
  Runs, pure-Runs, raise-Runs, bind-Runs, bind-Runs_err, catch-Runs, catch-Runs_err, redis_get-Runs,
  redis_set-Runs, Runs-if, Runs-else,
}
use dvarpala.Platform.Redis.{Keyspace, get, del}
use dvarpala.Platform.Database.{Tables}
use dvarpala.Auth.Session.{
  session_key, auth_key, stamp, store_session, drop_session, expire_both, found, decoded, new_token,
  is_no_session, create, fetch, get_session, get_by_client_ip, revoke, revoke_by_client_ip,
}
use dvarpala.Auth.Session.Pairing.{session_at, valid_at, unexpired}

module _ {env : Env} {K : Keyspace} {T : Tables} where
  decoded-Runs :
      (now : ℕ) (o : Option Session) {s : Session}
      → unexpired env.unmarshal now o ≡ some s
      → Runs {env = env} (decoded now o) K T (ok s) K T
  decoded-Runs now none h = absurd (ground arith)
  decoded-Runs now (some r) {s} h = λ w k t. (w, ground arith, k, t)

  decoded-Runs_err :
      (now : ℕ) (o : Option Session)
      → unexpired env.unmarshal now o ≡ none
      → (x : Error) × Runs {env = env} (decoded now o) K T (err x) K T
  decoded-Runs_err now none h = (bad_payload, raise-Runs bad_payload)
  decoded-Runs_err now (some r) h = (no_session, λ w k t. (w, ground arith, k, t))

  found-Runs :
      (now : ℕ) (o : Option Text) {s : Session}
      → valid_at env.unmarshal now o ≡ some s
      → Runs {env = env} (found now o) K T (ok s) K T
  found-Runs now none h = absurd (ground arith)
  found-Runs now (some p) h = decoded-Runs now (env.unmarshal p) h

  found-Runs_err :
      (now : ℕ) (o : Option Text)
      → valid_at env.unmarshal now o ≡ none
      → (x : Error) × Runs {env = env} (found now o) K T (err x) K T
  found-Runs_err now none h = (no_session, raise-Runs no_session)
  found-Runs_err now (some p) h = decoded-Runs_err now (env.unmarshal p) h

module _ {env : Env} (up : IsReliable env) {K : Keyspace} {T : Tables} (now : ℕ) where
  pub fetch-Runs :
      (key : Text) {s : Session}
      → session_at env.unmarshal now key K ≡ some s
      → Runs {env = env} (fetch now key) K T (ok s) K T
  unfolding fetch session_at
  fetch-Runs key h =
      bind-Runs (redis_get (get now key)) (found now) (redis_get-Runs up (get now key))
        (found-Runs now (get now key K) h)

  pub fetch-Runs_err :
      (key : Text)
      → session_at env.unmarshal now key K ≡ none
      → (x : Error) × Runs {env = env} (fetch now key) K T (err x) K T
  unfolding fetch session_at
  fetch-Runs_err key h =
      let (x, runs) = found-Runs_err now (get now key K) h in
      (x, bind-Runs (redis_get (get now key)) (found now) (redis_get-Runs up (get now key)) runs)

  pub create-Runs :
      (ttl : ℕ) (tok : Text) (sess : Session)
      → let issued = stamp sess tok now ttl in
        let K' = store_session now ttl issued (env.marshal issued) K in
        Runs {env = env} (create now ttl (some tok) sess) K T (ok issued) K' T
  unfolding create
  create-Runs ttl tok sess =
      let issued = stamp sess tok now ttl in
      bind-Runs (new_token (some tok)) _ (pure-Runs tok) (
        bind-Runs (redis_set (store_session now ttl issued (env.marshal issued))) _
          (redis_set-Runs up (store_session now ttl issued (env.marshal issued)))
          (pure-Runs issued))

  pub revoke-Runs :
      (tok : Text) {s : Session}
      → session_at env.unmarshal now (session_key tok) K ≡ some s
      → Runs {env = env} (revoke now tok) K T (ok tt) (drop_session tok s.client_ip K) T
  unfolding revoke
  revoke-Runs tok {s} h =
      catch-Runs (get_session now tok) _ _ (fetch-Runs (session_key tok) h)
        (redis_set-Runs up (drop_session tok s.client_ip))

  -- A revocation of a token that holds no session.
  pub revoke-Runs_dead :
      (tok : Text)
      → session_at env.unmarshal now (session_key tok) K ≡ none
      → (b : Bool) × (r : Result (Unit {0})) × Runs {env = env}
          (revoke now tok)
          K
          T
          r
          (if b then del (session_key tok) K else K)
          T
  unfolding revoke
  revoke-Runs_dead tok h =
      let (x, runs) = fetch-Runs_err (session_key tok) h in
      elim (Bool-cases (is_no_session x)) [
        | inl e ↦ (
          true,
          ok tt,
          catch-Runs_err (get_session now tok) _ _ runs (
              Runs-if (redis_set (del (session_key tok))) (is_no_session x) (raise x) e
                (redis_set-Runs up (del (session_key tok)))),
        )
        | inr e ↦ (
          false,
          err x,
          catch-Runs_err (get_session now tok) _ _ runs (
              Runs-else (raise x) (is_no_session x) (redis_set (del (session_key tok))) e
                (raise-Runs x)),
        )
      ]

  pub revoke_by_client_ip-Runs :
      (ip : Text) {s : Session}
      → session_at env.unmarshal now (auth_key ip) K ≡ some s
      → session_at env.unmarshal now (session_key s.token) K ≡ some s
      → Runs {env = env}
          (revoke_by_client_ip now ip)
          K
          T
          (ok tt)
          (drop_session s.token s.client_ip K)
          T
  unfolding revoke_by_client_ip
  revoke_by_client_ip-Runs ip {s} h k =
      catch-Runs (get_by_client_ip now ip) _ _ (fetch-Runs (auth_key ip) h) (revoke-Runs s.token k)

  pub revoke_by_client_ip-Runs_dead :
      (ip : Text)
      → session_at env.unmarshal now (auth_key ip) K ≡ none
      → (r : Result (Unit {0})) × Runs {env = env} (revoke_by_client_ip now ip) K T r K T
  unfolding revoke_by_client_ip
  revoke_by_client_ip-Runs_dead ip h =
      let (x, runs) = fetch-Runs_err (auth_key ip) h in
      elim (Bool-cases (is_no_session x)) [
        | inl e ↦ (
          ok tt,
          catch-Runs_err (get_by_client_ip now ip) _ _ runs
              (Runs-if (pure tt) (is_no_session x) (raise x) e (pure-Runs tt)),
        )
        | inr e ↦ (
          err x,
          catch-Runs_err (get_by_client_ip now ip) _ _ runs
              (Runs-else (raise x) (is_no_session x) (pure tt) e (raise-Runs x)),
        )
      ]

  -- Both hooks of a tunnel.
  pub shortened-Runs :
      (ip : Text) (life : Session → ℕ) {s : Session}
      → session_at env.unmarshal now (auth_key ip) K ≡ some s
      → Runs {env = env}
          (get_by_client_ip now ip >>= λ x. redis_set (expire_both now (life x) ip x.token))
          K
          T
          (ok tt)
          (expire_both now (life s) ip s.token K)
          T
  shortened-Runs ip life {s} h =
      bind-Runs (get_by_client_ip now ip) _ (fetch-Runs (auth_key ip) h)
        (redis_set-Runs up (expire_both now (life s) ip s.token))

  pub shortened-Runs_err :
      (ip : Text) (life : Session → ℕ)
      → session_at env.unmarshal now (auth_key ip) K ≡ none
      → (x : Error) × Runs {env = env}
          (get_by_client_ip now ip >>= λ x. redis_set (expire_both now (life x) ip x.token))
          K
          T
          (err x)
          K
          T
  shortened-Runs_err ip life h =
      let (x, runs) = fetch-Runs_err (auth_key ip) h in
      (x, bind-Runs_err (get_by_client_ip now ip) _ runs)
