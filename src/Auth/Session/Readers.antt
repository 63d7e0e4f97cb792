-- ===== src/Auth/Session/Readers.antt =====
-- internal/auth/session.go as its readers see it: which session a token and an address give, and
-- until when. Neither the keys of Redis, nor how a session is written down, nor their deadlines
-- appear. Also steps of the store together with what its readers see.
use dvarpala.Base.{
  Bool, ℕ, ◌+◌, ◌-◌, ◌≤◌, ◌≡◌, ◌&&◌, not, Option, none, some, Text, is_empty, text_eq, ltb,
  if◌then◌else◌,
}
use dvarpala.Models.{Session}
use dvarpala.Platform.Redis.{whole_seconds}
use dvarpala.Platform.{Env, World, Result, ok, err, keys}
use dvarpala.Auth.Session.{session_key, auth_key, stamp, disconnect_grace}
use dvarpala.Auth.Session.Reachable.{
  Operation, creating, revoking, revoking_at, leaving, returning, perform, Drawn, SessionsSame,
  Reach, nobody, step, elsewhere,
}

-- By the time of the read.
pub record Readings : Type 0 where
  pub of_token : ℕ → Text → Option Session
  pub of_address : ℕ → Text → Option Session

abbrev pub nothing : Readings
nothing = record { of_token = λ t k. none; of_address = λ t a. none }

-- What a reader makes of a read.
abbrev pub answer : Result Session → Option Session
answer (ok s) = some s
answer (err x) = none

-- A session that ends at a time, or at its own end.
abbrev pub lasting : ℕ → Session → ℕ → Option Session
lasting end s t = if ltb t end then (if ltb s.expires t then none else some s) else none

-- A session has an address of its own unless that is empty.
abbrev pub is_at : Text → Text → Bool
is_at ip a = not (is_empty ip) && text_eq ip a

abbrev pub hold : ℕ → Session → Readings → Readings
hold end s r = record {
  of_token = λ t k. if text_eq s.token k then lasting end s t else r.of_token t k;
  of_address = λ t a. if is_at s.client_ip a then lasting end s t else r.of_address t a;
}

abbrev pub forget : Text → Text → Readings → Readings
forget token client_ip r = record {
  of_token = λ t k. if text_eq token k then none else r.of_token t k;
  of_address = λ t a. if is_at client_ip a then none else r.of_address t a;
}

abbrev pub hold_found : (Session → ℕ) → Option Session → Readings → Readings
hold_found end none r = r
hold_found end (some s) r = hold (end s) s r

abbrev pub forget_by : Text → Option Session → Readings → Readings
forget_by token none r = r
forget_by token (some s) r = forget token s.client_ip r

abbrev pub forget_found : Option Session → Readings → Readings
forget_found none r = r
forget_found (some s) r = forget s.token s.client_ip r

abbrev pub hold_new : ℕ → ℕ → Option Text → Session → Readings → Readings
hold_new now ttl none sess r = r
hold_new now ttl (some token) sess r = hold (now + ttl) (stamp sess token now ttl) r

-- What an operation promises its readers.
abbrev pub promised : ℕ → Operation → Readings → Readings
promised now (creating ttl random sess) r = hold_new now ttl random sess r
promised now (revoking token) r = forget_by token (r.of_token now token) r
promised now (revoking_at ip) r = forget_found (r.of_address now ip) r
promised now (leaving ip) r = hold_found (λ s. now + disconnect_grace) (r.of_address now ip) r
promised now (returning ip) r =
    hold_found (λ s. now + whole_seconds (s.expires - now)) (r.of_address now ip) r

module _ {env : Env} where
  -- The store and what its readers are promised, step by step, from a Redis without sessions.
  pub data Along : ℕ → World env → Readings → Type 0 where
    begun :
        (w : World env)
        → ((k : Text) → keys w (session_key k) ≡ none)
        → ((a : Text) → keys w (auth_key a) ≡ none)
        → Along 0 w nothing
    along :
        {now later : ℕ} {w : World env} {r : Readings} (op : Operation)
        → Along now w r
        → now ≤ later
        → Drawn op w
        → Along later (perform later op w) (promised later op r)
    beside :
        {now : ℕ} {w : World env} {r : Readings} (u : World env)
        → Along now w r
        → SessionsSame w u
        → Along now u r

  pub Along-Reach : {now : ℕ} {w : World env} {r : Readings} → Along now w r → Reach now w
  Along-Reach (begun w k a) = nobody w a
  Along-Reach (along op s le d) = step op (Along-Reach s) le d
  Along-Reach (beside u s same) = elsewhere u (Along-Reach s) same
