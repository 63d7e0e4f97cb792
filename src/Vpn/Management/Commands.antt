-- ===== src/Vpn/Management/Commands.antt =====
-- What is sent on the control channel, and what disturbs a reply.
use dvarpala.Base.{
  ℕ, zero, suc, ◌+◌, ◌/◌, ◌%◌, ◌≤◌, ◌≡◌, refl, ap, ◌⊎◌, inl, inr, not, Bool, false, List, [], ◌∷◌,
  ◌++◌, none, Text, codes, is_empty, text_eq, any, any-append, keep, length, All, arith,
  if◌then◌else◌, Bool-cases, ℤ, pos, negsuc, show_int, show_digits, contains_any,
}
use dvarpala.Platform.{Result, ok, err, Error}
use dvarpala.Vpn.Management.{
  OpenVpn, ConnectedClient, trim_cr, is_notice, is_break, collect, with_line, command, clients,
  kill, kill_client, kill_client_line, restart, restart_all, restart_listed, reconnect,
}

-- What OpenVPN announces of its own accord does not disturb a reply: wherever such lines come in
-- between, the reply is the one without them.
pub collect_notices :
    (done : Text → Bool) (failed : Bool) (ls : List Text)
    → collect done failed ls ≡ collect done failed (keep (λ l. not (is_notice (trim_cr l))) ls)
unfolding collect keep
collect_notices done failed [] = refl
collect_notices done failed (l ∷ ls) = elim (Bool-cases (is_notice (trim_cr l))) [
  | inl e ↦ rw (e, collect) (collect_notices done failed ls)
  | inr e ↦
      rw (e, collect)
        (rw (e, collect)
          (ap (λ r. if done (trim_cr l) then ok (trim_cr l ∷ []) else with_line (trim_cr l) r)
            (collect_notices done failed ls)))
]

-- A command is one line.
abbrev pub OneLine : Text → Type 0
OneLine s = any is_break s ≡ false

OneLine-append : (s r : Text) → OneLine s → OneLine r → OneLine (s ++ r)
OneLine-append s r h k = ground (arith, any-append is_break s r)

OneLine-show_digits : (fuel n : ℕ) → OneLine (show_digits fuel n)
unfolding show_digits any
OneLine-show_digits zero n = refl
OneLine-show_digits (suc fuel) n = ground (
  arith,
  OneLine-show_digits fuel (n / 10),
  any-append is_break (show_digits fuel (n / 10)) ((b'0' + n % 10) ∷ []),
)

OneLine-show_int : (z : ℤ) → OneLine (show_int z)
unfolding show_int any
OneLine-show_int (pos n) = OneLine-show_digits 20 n
OneLine-show_int (negsuc n) = OneLine-show_digits 20 (suc n)

OneLine-kill_client_line :
    (id : ℤ) (message : Text) → OneLine message → OneLine (kill_client_line id message)
unfolding any
OneLine-kill_client_line id message h =
    ground (arith, OneLine-show_int id, any-append is_break (show_int id) (b' ' ∷ message))

Result-cases : {A : Type 0} (r : Result A) → ((x : Error) × (r ≡ err x)) ⊎ ((a : A) × (r ≡ ok a))
Result-cases (err x) = inl (x, refl)
Result-cases (ok a) = inr (a, refl)

module _ (vpn : OpenVpn) where
  kill-OneLine : (name : Text) (h : List Text) → All OneLine h → All OneLine (kill vpn name h).1
  unfolding kill command any
  kill-OneLine name h clean = elim (Bool-cases (contains_any is_break name)) [
    | inl e ↦ rw (e, kill) clean
    | inr e ↦ rw (e, kill) (OneLine-append (codes "kill ") name refl e, clean)
  ]

  kill_client-OneLine :
      (id : ℤ) (message : Text) (h : List Text)
      → All OneLine h
      → All OneLine (kill_client vpn id message h).1
  unfolding kill_client command
  kill_client-OneLine id message h clean =
      let text = if is_empty message then codes "HALT" else message in
      elim (Bool-cases (contains_any is_break text)) [
        | inl e ↦ rw (e, kill_client) clean
        | inr e ↦ rw (e, kill_client) (OneLine-kill_client_line id text e, clean)
      ]

  restart_all-OneLine :
      (name : Text) (cs : List ConnectedClient) (h : List Text)
      → All OneLine h
      → All OneLine (restart_all vpn name cs h).1
  unfolding restart_all command any
  restart_all-OneLine name [] h clean = clean
  restart_all-OneLine name (c ∷ cs) h clean =
      let next : All OneLine (restart vpn c h).1 =
        (OneLine-kill_client_line c.client_id (codes "RESTART") refl, clean) in
      let skipped = restart_all-OneLine name cs h clean in
      let others = restart_all-OneLine name cs (restart vpn c h).1 next in
      elim (Bool-cases (text_eq c.common_name name)) [
        | inr e ↦ rw (e, restart_all) skipped
        | inl e ↦ elim (Result-cases (restart vpn c h).0) [
          | inl (x, k) ↦ rw (e, restart_all) (rw k next)
          | inr (lines, k) ↦ rw (e, restart_all) (rw k others)
        ]
      ]

  listed-OneLine :
      (name : Text) (r : Result (List ConnectedClient)) (h : List Text)
      → All OneLine h
      → All OneLine (restart_listed vpn name (r, h)).1
  listed-OneLine name (err e) h clean = clean
  listed-OneLine name (ok cs) h clean = restart_all-OneLine name cs h clean

  -- Whatever OpenVPN answers, and whatever the name and the message are: if each command sent
  -- before was one line, so is each that Kill, KillClient and Reconnect send, and none of them
  -- smuggles in another.
  pub commands-OneLine :
      (name message : Text) (id : ℤ) (h : List Text)
      → All OneLine h
      → All OneLine (kill vpn name h).1
        × All OneLine (kill_client vpn id message h).1
        × All OneLine (reconnect vpn name h).1
  unfolding reconnect clients command any
  commands-OneLine name message id h clean = (
    kill-OneLine name h clean,
    kill_client-OneLine id message h clean,
    listed-OneLine name (clients vpn h).0 (clients vpn h).1 (refl, clean),
  )

  suc_le : {a b : ℕ} → a ≤ b → suc a ≤ suc b
  suc_le h = omega arith

  -- The loop of Reconnect asks no more clients than have the name, and if it ends without an error
  -- it has asked as many as have it.
  pub restart_all-count :
      (name : Text) (cs : List ConnectedClient) (h : List Text)
      → let ((asked, e), h') = restart_all vpn name cs h in
        let named = length (keep (λ (c : ConnectedClient). text_eq c.common_name name) cs) in
        (asked ≤ named) × (e ≡ none → asked ≡ named)
  unfolding restart_all keep
  restart_all-count name [] h = (omega arith, λ e. refl)
  restart_all-count name (c ∷ cs) h =
      let skipped = restart_all-count name cs h in
      let others = restart_all-count name cs (restart vpn c h).1 in
      elim (Bool-cases (text_eq c.common_name name)) [
        | inr e ↦ rw (e, restart_all) skipped
        | inl e ↦ elim (Result-cases (restart vpn c h).0) [
          | inl (x, k) ↦ rw (e, restart_all) (rw k (omega arith, λ z. cc))
          | inr (lines, k) ↦ rw (e, restart_all) (rw k (suc_le others.0, λ z. ap suc (others.1 z)))
        ]
      ]
