-- ===== src/Auth/Mail/Dialling.antt =====
-- internal/auth/mailer.go: reaching the mail server, in a few short attempts. Time passes while a
-- dial runs and while the loop sleeps, which takes the pause asked for; the clock is the one that
-- the loop reads. What a dial does is a parameter: begun at one time and given up at another, it
-- returns a connection, or none, and the time at which it ended.
use dvarpala.Base.{
  ℕ, zero, suc, ◌+◌, ◌-◌, ◌≤◌, ◌<◌, ◌≡◌, refl, Bool, true, false, List, [], ◌∷◌, length, Option,
  none, some, ltb, leb, All, arith, if◌then◌else◌,
}
use dvarpala.Auth.Mail.{SmtpMailer, effective_timeout, dial_timeout, dial_tries, dial_pause}

-- attemptTimeout, as the time at which an attempt begun now is given up.
unfoldable pub attempt_end : ℕ → ℕ → ℕ
attempt_end now deadline =
    if ltb deadline (now + dial_timeout) then deadline else now + dial_timeout

-- When an attempt begins: all but the first after a pause, where there is time for one.
unfoldable pub begins : Bool → ℕ → ℕ → Option ℕ
begins is_first now deadline =
    if is_first
    then some now
    else if leb (deadline - now) dial_pause
    then none
    else some (now + dial_pause)

-- An attempt that was made.
pub record Attempt : Type 0 where
  pub start : ℕ
  pub give_up : ℕ

pub record Dialled (C : Type 0) : Type 0 where
  pub conn : Option C
  pub ended : ℕ
  pub attempts : List Attempt

module _ {C : Type 0} (dial : ℕ → ℕ → Option C × ℕ) where
  abbrev pub unreached : ℕ → Dialled C
  unreached now = record { conn = none; ended = now; attempts = [] }

  abbrev pub attempted : ℕ → ℕ → Dialled C → Dialled C
  attempted start give_up d = record d {
    attempts = record { start = start; give_up = give_up } ∷ d.attempts;
  }

  -- After an attempt: `again` is what the loop does next, from the time at which it does it.
  abbrev pub after_attempt : (ℕ → Dialled C) → ℕ → Option C × ℕ → Dialled C
  after_attempt again deadline (some c, now) = record { conn = some c; ended = now; attempts = [] }
  after_attempt again deadline (none, now) = if ltb deadline now then unreached now else again now

  abbrev pub attempt_at : (ℕ → Dialled C) → ℕ → ℕ → Option ℕ → Dialled C
  attempt_at again deadline now none = unreached now
  attempt_at again deadline now (some start) =
      let give_up = attempt_end start deadline in
      attempted start give_up (after_attempt again deadline (dial start give_up))

  -- The loop of dialWithRetry, with the number of attempts that are left.
  unfoldable pub try_from : ℕ → Bool → ℕ → ℕ → Dialled C
  try_from zero is_first deadline now = unreached now
  try_from (suc n) is_first deadline now =
      attempt_at (try_from n false deadline) deadline now (begins is_first now deadline)

  -- dialWithRetry
  unfoldable pub dial_with_retry : SmtpMailer → ℕ → Dialled C
  dial_with_retry m now = try_from dial_tries true (now + effective_timeout m) now

  -- A dial ends no earlier than it begins, and no later than it is given up.
  abbrev pub IsTimely : Type 0
  IsTimely = (t u : ℕ) → t < u → (t ≤ (dial t u).1) × ((dial t u).1 ≤ u)

-- An attempt has time, at most dial_timeout, and is given up by the deadline.
abbrev pub IsBounded : ℕ → Attempt → Type 0
IsBounded deadline a =
    (a.start < a.give_up) × ((a.give_up ≤ a.start + dial_timeout) × (a.give_up ≤ deadline))

abbrev pub InTime : {C : Type 0} → ℕ → ℕ → Dialled C → Type 0
InTime n deadline d =
    (length d.attempts ≤ n) × ((d.ended ≤ deadline) × All (IsBounded deadline) d.attempts)

attempt_end-IsBounded :
    (start deadline : ℕ)
    → start < deadline
    → IsBounded deadline (record { start = start; give_up = attempt_end start deadline })
unfolding attempt_end
attempt_end-IsBounded start deadline h = ground (arith)

begins_lt :
    (is_first : Bool) (now deadline start : ℕ)
    → (is_first ≡ true → now < deadline)
    → begins is_first now deadline ≡ some start
    → start < deadline
unfolding begins
begins_lt true now deadline start h e = ground (arith, h refl)
begins_lt false now deadline start h e = ground arith

module _ {C : Type 0} (dial : ℕ → ℕ → Option C × ℕ) (timely : IsTimely dial) where
  after_attempt-InTime :
      (n deadline : ℕ) (again : ℕ → Dialled C) (r : Option C × ℕ)
      → ((now : ℕ) → now ≤ deadline → InTime n deadline (again now))
      → r.1 ≤ deadline
      → InTime n deadline (after_attempt dial again deadline r)
  after_attempt-InTime n deadline again (some c, now) k h = (omega arith, (h, tt))
  after_attempt-InTime n deadline again (none, now) k h =
      let e : ltb deadline now ≡ false = ground arith in rw e (k now h)

  attempt_at-InTime :
      (n deadline now : ℕ) (again : ℕ → Dialled C) (o : Option ℕ)
      → ((t : ℕ) → t ≤ deadline → InTime n deadline (again t))
      → now ≤ deadline
      → ((s : ℕ) → o ≡ some s → s < deadline)
      → InTime (suc n) deadline (attempt_at dial again deadline now o)
  attempt_at-InTime n deadline now again none k h b = (omega arith, (h, tt))
  attempt_at-InTime n deadline now again (some s) k h b =
      let bounded = attempt_end-IsBounded s deadline (b s refl) in
      let ended = (timely s (attempt_end s deadline) bounded.0).1 in
      let rest =
        after_attempt-InTime n deadline again (dial s (attempt_end s deadline)) k
          (omega (arith, ended, bounded.1.1)) in
      (omega (arith, rest.0), (rest.1.0, (bounded, rest.1.1)))

  try_from-InTime :
      (n : ℕ) (is_first : Bool) (deadline now : ℕ)
      → now ≤ deadline
      → (is_first ≡ true → now < deadline)
      → InTime n deadline (try_from dial n is_first deadline now)
  unfolding try_from
  try_from-InTime zero is_first deadline now h f = (omega arith, (h, tt))
  try_from-InTime (suc n) is_first deadline now h f =
      attempt_at-InTime n deadline now (try_from dial n false deadline)
        (begins is_first now deadline)
        (λ t q. try_from-InTime n false deadline t q (λ e. absurd (ground arith))) h
        (λ s. begins_lt is_first now deadline s f)

  -- Where no dial outlasts the time it is given, reaching the mail server takes at most three
  -- attempts and ends by its deadline, and every attempt is given some time, at most eight seconds,
  -- and none past the deadline.
  pub dial_with_retry-InTime :
      (m : SmtpMailer) (now : ℕ)
      → InTime dial_tries (now + effective_timeout m) (dial_with_retry dial m now)
  unfolding dial_with_retry
  dial_with_retry-InTime m now =
      let h : 0 < effective_timeout m = ground arith in
      try_from-InTime dial_tries true (now + effective_timeout m) now (omega arith)
        (λ e. omega (arith, h))
