-- ===== src/Vpn/Idle/Sweeping.antt =====
-- Which tunnels a sweep closes.
use dvarpala.Base.{
  ℕ, ◌+◌, ◌-◌, ◌*◌, ◌≤◌, ◌≡◌, refl, ◌&&◌, not, Bool, List, [], ◌∷◌, some, Text, is_empty, ltb,
  length, map, keep, arith,
}
use dvarpala.Models.{second}
use dvarpala.Vpn.Idle.{ConnectedClient, IdleSweeper, new_idle_sweeper, close, sweep_clients}

-- A tunnel with an address, on which nobody has signed in for the sweeper's timeout.
abbrev pub is_abandoned : IdleSweeper → ℕ → (Text → Bool) → ConnectedClient → Bool
is_abandoned s now signed_in c =
    not (is_empty c.virtual_address)
    && not (signed_in c.virtual_address)
    && not (ltb (now - c.connected_since) s.after)

abbrev pub with_idle : ℕ → ConnectedClient → ConnectedClient × ℕ
with_idle now c = (c, now - c.connected_since)

module _ (s : IdleSweeper) (now : ℕ) (signed_in : Text → Bool) (kill_ok : ℕ → Bool) where
  -- A sweep asks to close the abandoned tunnels and no others, each once and in their order; it
  -- reports those whose close succeeded, with their idle time, and counts just these.
  pub sweep_clients_lem :
      (cs : List ConnectedClient)
      → let done = sweep_clients s now signed_in kill_ok cs in
        let abandoned = keep (is_abandoned s now signed_in) cs in
        (done.kills ≡ map (λ (c : ConnectedClient). c.client_id) abandoned)
        × (done.reaped
            ≡ map (with_idle now) (keep (λ (c : ConnectedClient). kill_ok c.client_id) abandoned))
        × (done.closed ≡ length done.reaped)
  unfolding sweep_clients close keep
  sweep_clients_lem [] = (refl, refl, refl)
  sweep_clients_lem (c ∷ cs) =
      let (k, r, n) = sweep_clients_lem cs in (ground arith, ground arith, ground arith)

-- A sweeper exists just for a positive timeout; it looks at least every half minute apart, and at
-- most six times within a timeout.
pub new_idle_sweeper_bounds :
    (after : ℕ) (s : IdleSweeper)
    → new_idle_sweeper after ≡ some s
    → (1 ≤ after) × (s.after ≡ after) × (30 * second ≤ s.every) × (after ≤ 6 * s.every + 5)
unfolding new_idle_sweeper
new_idle_sweeper_bounds after s h = (ground arith, ground arith, ground arith, ground arith)
