-- ===== src/Platform.antt =====
-- What the program runs on and does not implement: the Redis server, the PostgreSQL database
-- behind gorm, the JSON codec, the mail server and OpenVPN's control channel. They are parameters.
-- A Backend is a server that holds a value of type V, and gets commands; a command that does not
-- get through changes nothing. Operations of the program are actions over the two servers.
pub mod Redis
pub mod Database
pub mod Rules
pub mod Invariants
pub mod Runs
use dvarpala.Base.{ℕ, Bool, true, false, List, Option, none, some, ◌≡◌, Text, if◌then◌else◌}
use dvarpala.Models.{Session}
use Redis.{Keyspace}
use Database.{Tables}

pub record Backend (V : Type 0) : Type 1 where
  pub State : Type 0
  pub view : State → V
  -- Whether the next command gets through.
  pub up : State → Bool
  -- The server after a command that reads, and after one that writes.
  pub query : State → State
  pub update : (V → V) → State → State
  pub view-query : (s : State) → view (query s) ≡ view s
  pub view-update : (f : V → V) (s : State) → up s ≡ true → view (update f s) ≡ f (view s)
  pub view-update_down : (f : V → V) (s : State) → up s ≡ false → view (update f s) ≡ view s

pub record Env : Type 1 where
  pub redis : Backend Keyspace
  pub database : Backend Tables
  -- encoding/json on a session: what is written is read back.
  pub marshal : Session → Text
  pub unmarshal : Text → Option Session
  pub unmarshal-marshal : (s : Session) → unmarshal (marshal s) ≡ some s
  -- Mailer.SendCode, to an address: whether the mail was taken.
  pub send_code : Text → Text → Bool
  -- What SplitCIDR makes of an address that package net reads as IPv6: its network and netmask, if
  -- it stands for an IPv4 one.
  pub split_ipv6 : Text → Option (Text × Text)
  -- Disconnector.Kill, where the VPN offers it, of a common name: how many tunnels it closed, or
  -- none on an error.
  pub disconnect : Option (Text → Option ℕ)

pub record World (env : Env) : Type 0 where
  pub redis : env.redis.State
  pub database : env.database.State

-- The errors of the program, by the sentinel that errors.Is finds in them.
pub data Error : Type 0 where
  redis_failed database_failed mail_failed random_failed : Error
  no_session bad_state domain_blocked unknown_provider not_verified : Error
  code_expired code_wrong code_exhausted too_soon daily_limit code_disabled : Error
  no_break_glass reason_required too_long : Error
  user_not_found user_exists invalid_email user_inactive : Error
  group_not_found group_exists invalid_group : Error
  resource_not_found resource_exists invalid_resource : Error
  invalid_permission invalid_domain domain_exists domain_not_found : Error
  config_not_found no_ca issue_failed bad_payload : Error
  no_management reply_broken bad_argument no_reply : Error
  not_configured no_code not_an_email refused_code no_token no_profile no_email : Error
  unverified_email : Error

pub data Result {ℓ} (A : Type ℓ) : Type ℓ where
  ok : A → Result A
  err : Error → Result A

-- An operation returns its result and the servers that it leaves, on an error too.
abbrev pub Exec : Env → Type 0 → Type 0
Exec env A = World env → Result A × World env

module _ {env : Env} {A : Type 0} where
  abbrev pub pure : A → Exec env A
  pure a w = (ok a, w)

  abbrev pub raise : Error → Exec env A
  raise e w = (err e, w)

  abbrev pub lift : Result A → Exec env A
  lift r w = (r, w)

module _ {env : Env} {A B : Type 0} where
  -- What follows a step: the rest on success, and on an error the handler.
  abbrev pub continue :
      (A → Exec env B) → (Error → Exec env B) → Result A × World env → Result B × World env
  continue f g (ok a, w) = f a w
  continue f g (err e, w) = g e w

  infixl 5 ◌>>=◌ ◌>>◌
  unfoldable pub ◌>>=◌ : Exec env A → (A → Exec env B) → Exec env B
  ◌>>=◌ m f w = continue f raise (m w)

  -- `if err != nil { … }` where the error is handled.
  unfoldable pub catch : Exec env A → (A → Exec env B) → (Error → Exec env B) → Exec env B
  catch m f g w = continue f g (m w)

  abbrev pub ◌>>◌ : Exec env A → Exec env B → Exec env B
  m >> n = m >>= λ _. n

module _ {env : Env} {A : Type 0} where
  -- A step whose error is dropped.
  unfoldable pub ignore : Exec env A → Exec env (Unit {0})
  ignore m w = (ok tt, (m w).1)

  -- A step whose error is reported before it is returned.
  unfoldable pub on_error : Exec env A → (Error → Exec env (Unit {0})) → Exec env A
  unfolding catch
  on_error m report = catch m pure (λ e. catch (report e) (λ _. raise e) (λ _. raise e))

-- A command that reads Redis, one that writes it, and the same for a statement of the database.
module _ {env : Env} where
  unfoldable pub redis_get : {A : Type 0} → (Keyspace → A) → Exec env A
  redis_get q w = (
    if env.redis.up w.redis then ok (q (env.redis.view w.redis)) else err redis_failed,
    record w { redis = env.redis.query w.redis },
  )

  unfoldable pub redis_set : (Keyspace → Keyspace) → Exec env (Unit {0})
  redis_set f w = (
    if env.redis.up w.redis then ok tt else err redis_failed,
    record w { redis = env.redis.update f w.redis },
  )

  -- A command that writes and returns a value.
  unfoldable pub redis_call : {A : Type 0} → (Keyspace → A) → (Keyspace → Keyspace) → Exec env A
  redis_call q f w = (
    if env.redis.up w.redis then ok (q (env.redis.view w.redis)) else err redis_failed,
    record w { redis = env.redis.update f w.redis },
  )

  unfoldable pub select : {A : Type 0} → (Tables → A) → Exec env A
  select q w = (
    if env.database.up w.database
        then ok (q (env.database.view w.database))
        else err database_failed,
    record w { database = env.database.query w.database },
  )

  unfoldable pub execute : (Tables → Tables) → Exec env (Unit {0})
  execute f w = (
    if env.database.up w.database then ok tt else err database_failed,
    record w { database = env.database.update f w.database },
  )

  -- An insertion that returns the new row.
  unfoldable pub insert : {A : Type 0} → (Tables → A) → (Tables → Tables) → Exec env A
  insert q f w = (
    if env.database.up w.database
        then ok (q (env.database.view w.database))
        else err database_failed,
    record w { database = env.database.update f w.database },
  )

  -- What the servers hold.
  abbrev pub keys : World env → Keyspace
  keys w = env.redis.view w.redis

  abbrev pub tables : World env → Tables
  tables w = env.database.view w.database

-- Both servers take every command.
pub record IsReliable (env : Env) : Type 0 where
  pub redis_up : (s : env.redis.State) → env.redis.up s ≡ true
  pub database_up : (s : env.database.State) → env.database.up s ≡ true
