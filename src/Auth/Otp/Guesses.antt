-- ===== src/Auth/Otp/Guesses.antt =====
-- Rows of guesses at a code.
use dvarpala.Base.{
  ℕ, zero, suc, ◌+◌, ◌≤◌, ◌<◌, ◌≡◌, refl, sym, ap, subst, ◌∙◌, ◌⊎◌, inl, inr, false, Option, none,
  some, List, [], ◌∷◌, Text, arith, leb, text_eq, text_eq_refl, trim_space, if◌then◌else◌,
}
use dvarpala.Platform.{
  Env, World, IsReliable, Result, err, code_wrong, code_exhausted, code_expired, ◌>>=◌, catch,
  ignore, redis_get, redis_set, redis_call, keys,
}
use dvarpala.Platform.Redis.{Keyspace, Cell, Value, text, number, at, get, incr, expire}
use dvarpala.Auth.Otp.{
  otp_key, otp_attempts_key, otp_ttl, otp_max_tries, canonical, drop_code, attempts_after, verify,
  wrong_code,
}
use dvarpala.Auth.Otp.Keys.{attempts-ne-otp_key}

-- What Redis holds after a wrong code, by the count that it makes.
abbrev pub after_wrong : ℕ → Text → ℕ → Keyspace → Keyspace
after_wrong now email n m =
    let m' = incr now (otp_attempts_key email) m in
    if leb otp_max_tries n
    then drop_code email m'
    else if leb n 1
    then expire now (otp_attempts_key email) otp_ttl m'
    else m'

module _ {env : Env} (up : IsReliable env) where
  wrong_code-keys :
      (now n : ℕ) (email : Text) (w : World env)
      → attempts_after now email (keys w) ≡ suc n
      → let (r, w') = wrong_code now email w in
        (r ≡ (if leb otp_max_tries (suc n) then err code_exhausted else err code_wrong))
        × (keys w' ≡ after_wrong now email (suc n) (keys w))
  unfolding wrong_code catch ignore redis_call redis_set ◌>>=◌
  wrong_code-keys now n email w h =
      let key = otp_attempts_key email in
      let v = (redis_call (attempts_after now email) (incr now key) w).1 in
      ground (
        arith,
        up.redis_up w.redis,
        up.redis_up v.redis,
        env.redis.view-update (incr now key) w.redis,
        env.redis.view-update (drop_code email) v.redis,
        env.redis.view-update (expire now key otp_ttl) v.redis,
      )

abbrev pub cell_until : Value → ℕ → Option Cell
cell_until v e = some (record { value = v; expires = some e })

-- A code that is stored until `e`, with `n` wrong guesses counted. A counter that is there lives
-- as long as the code.
pub record Pending (email stored : Text) (e n : ℕ) (m : Keyspace) : Type 0 where
  pub code : m (otp_key email) ≡ cell_until (text stored) e
  pub counter :
      ((n ≡ 0) × (m (otp_attempts_key email) ≡ none))
      ⊎ ((0 < n) × (d : ℕ) × (e ≤ d) × (m (otp_attempts_key email) ≡ cell_until (number n) d))

module _ (email stored : Text) (e t n : ℕ) (m : Keyspace) (p : Pending email stored e n m)
    (lt : t < e) where
  attempts_after-Pending : attempts_after t email m ≡ suc n
  unfolding at
  attempts_after-Pending = ground (arith, p.counter)

  get-Pending : get t (otp_key email) m ≡ some stored
  unfolding at
  get-Pending = ground (arith, p.code)

  -- A fifth wrong guess drops the code; an earlier one leaves it, counted once more.
  after_wrong-code :
      after_wrong t email (suc n) m (otp_key email)
      ≡ (if leb otp_max_tries (suc n) then none else cell_until (text stored) e)
  unfolding at
  after_wrong-code =
      ground (arith, p.code, attempts-ne-otp_key email email, text_eq_refl (otp_key email))

  after_wrong-Pending :
      suc n < otp_max_tries
      → e ≤ t + otp_ttl
      → Pending email stored e (suc n) (after_wrong t email (suc n) m)
  unfolding at
  after_wrong-Pending room soon = elim p.counter [
    | inl (zero_n, absent) ↦ record {
      code = ground (arith, after_wrong-code);
      counter =
          inr
            (omega arith, t + otp_ttl, soon, ground (arith, text_eq_refl (otp_attempts_key email)));
    }
    | inr (pos_n, d, long, held) ↦ record {
      code = ground (arith, after_wrong-code);
      counter = inr (omega arith, d, long, ground (arith, text_eq_refl (otp_attempts_key email)));
    }
  ]

abbrev pub Guess : Type 0
Guess = ℕ × Text

-- The answers to a row of guesses on one attempt, each in the state that the last one leaves.
unfoldable pub guess_all :
    {env : Env} → Text → Text → List Guess → World env → List (Result (Unit {0}))
guess_all address state [] w = []
guess_all address state ((t, code) ∷ gs) w =
    let (r, w') = verify t address code state w in r ∷ guess_all address state gs w'

-- What five tries, or what is left of them, allow.
unfoldable pub verdicts : ℕ → List Guess → List (Result (Unit {0}))
verdicts k [] = []
verdicts zero (g ∷ gs) = err code_expired ∷ verdicts zero gs
verdicts (suc zero) (g ∷ gs) = err code_exhausted ∷ verdicts zero gs
verdicts (suc (suc k)) (g ∷ gs) = err code_wrong ∷ verdicts (suc k) gs

-- The first guesses, as many as there are tries, are wrong and come while the code is there.
abbrev pub Wrong : Text → ℕ → ℕ → List Guess → Type 0
Wrong stored e k [] = Unit {0}
Wrong stored e zero (g ∷ gs) = Unit {0}
Wrong stored e (suc k) ((t, code) ∷ gs) =
    (t < e) × (e ≤ t + otp_ttl) × (text_eq stored (trim_space code) ≡ false) × Wrong stored e k gs

module _ {env : Env} (up : IsReliable env) (address state stored : Text) (e : ℕ) where
  verify-Pending :
      (t n : ℕ) (code : Text) (w : World env)
      → Pending (canonical address) stored e n (keys w)
      → t < e
      → text_eq stored (trim_space code) ≡ false
      → let (r, w') = verify t address code state w in
        (r ≡ (if leb otp_max_tries (suc n) then err code_exhausted else err code_wrong))
        × (keys w' ≡ after_wrong t (canonical address) (suc n) (keys w))
  unfolding verify ◌>>=◌ redis_get
  verify-Pending t n code w p lt wrong =
      let email = canonical address in
      let v = (redis_get (get t (otp_key email)) w).1 in
      let same : keys v ≡ keys w = env.redis.view-query w.redis in
      let there = get-Pending email stored e t n (keys w) p lt in
      let count = attempts_after-Pending email stored e t n (keys w) p lt in
      let (r, k) = wrong_code-keys up t n email v (ap (attempts_after t email) same ∙ count) in
      ground (arith, up.redis_up w.redis)

  verify-gone :
      (t : ℕ) (code : Text) (w : World env)
      → keys w (otp_key (canonical address)) ≡ none
      → let (r, w') = verify t address code state w in (r ≡ err code_expired) × (keys w' ≡ keys w)
  unfolding verify ◌>>=◌ redis_get at
  verify-gone t code w h =
      let same = env.redis.view-query w.redis in ground (arith, up.redis_up w.redis)

  guess_all-gone :
      (gs : List Guess) (w : World env)
      → keys w (otp_key (canonical address)) ≡ none
      → guess_all address state gs w ≡ verdicts 0 gs
  unfolding guess_all verdicts
  guess_all-gone [] w h = refl
  guess_all-gone ((t, code) ∷ gs) w h =
      let (r, k) = verify-gone t code w h in
      let rest =
        guess_all-gone gs (verify t address code state w).1
          (ap (λ (m : Keyspace). m (otp_key (canonical address))) k ∙ h) in
      ground arith

  guess_all-Pending :
      (k n : ℕ) (gs : List Guess) (w : World env)
      → suc k + n ≡ otp_max_tries
      → Pending (canonical address) stored e n (keys w)
      → Wrong stored e (suc k) gs
      → guess_all address state gs w ≡ verdicts (suc k) gs
  unfolding guess_all verdicts
  guess_all-Pending zero n [] w sum p h = refl
  guess_all-Pending (suc k) n [] w sum p h = refl
  guess_all-Pending zero n ((t, code) ∷ gs) w sum p (lt, soon, wrong, h) =
      let email = canonical address in
      let (r, same) = verify-Pending t n code w p lt wrong in
      let gone = after_wrong-code email stored e t n (keys w) p lt in
      let rest =
        guess_all-gone gs (verify t address code state w).1
          (ap (λ (m : Keyspace). m (otp_key email)) same ∙ ground arith) in
      ground arith
  guess_all-Pending (suc k) n ((t, code) ∷ gs) w sum p (lt, soon, wrong, h) =
      let email = canonical address in
      let (r, same) = verify-Pending t n code w p lt wrong in
      let next = after_wrong-Pending email stored e t n (keys w) p lt (omega arith) soon in
      let rest =
        guess_all-Pending k (suc n) gs (verify t address code state w).1 (omega arith)
          (subst (Pending email stored e (suc n)) (sym same) next) h in
      ground arith

  -- On servers that answer: of a row of guesses at a pending code, of which nobody has guessed yet
  -- and the first five are wrong and come before the code's end, the first four are told that they
  -- are wrong, the fifth spends the code, and from then on no guess is accepted, also the right
  -- one.
  pub guess_all_lem :
      (gs : List Guess) (w : World env)
      → Pending (canonical address) stored e 0 (keys w)
      → Wrong stored e otp_max_tries gs
      → guess_all address state gs w ≡ verdicts otp_max_tries gs
  guess_all_lem gs w p h = guess_all-Pending 4 0 gs w refl p h
