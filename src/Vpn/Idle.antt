-- ===== src/Vpn/Idle.antt =====
-- internal/vpn/idle.go: closing tunnels that nobody has signed in on. The list of clients, who is
-- signed in and which kills succeed are what the management interface and the session store say.
pub mod Sweeping
use dvarpala.Base.{
  ℕ, suc, ◌+◌, ◌-◌, ◌*◌, ◌/◌, ◌&&◌, not, Bool, true, false, List, [], ◌∷◌, Option, none, some, Text,
  is_empty, ltb, if◌then◌else◌, length,
}
use dvarpala.Models.{second}

-- The fields of vpn.ConnectedClient that the sweep reads.
pub record ConnectedClient : Type 0 where
  pub common_name : Text
  pub virtual_address : Text
  pub connected_since : ℕ
  pub client_id : ℕ

pub record IdleSweeper : Type 0 where
  pub after : ℕ
  pub every : ℕ

-- NewIdleSweeper: none where the timeout disables it.
unfoldable pub new_idle_sweeper : ℕ → Option IdleSweeper
new_idle_sweeper after =
    let every = after / 6 in
    if ltb 0 after
    then some
        (record { after = after; every = if ltb every (30 * second) then 30 * second else every })
    else none

-- What a sweep has done: the count that it returns, the calls of KillClient in order, and those of
-- OnReap.
pub record Swept : Type 0 where
  pub closed : ℕ
  pub kills : List ℕ
  pub reaped : List (ConnectedClient × ℕ)

abbrev pub nothing_swept : Swept
nothing_swept = record { closed = 0; kills = []; reaped = [] }

module _ (s : IdleSweeper) (now : ℕ) (signed_in : Text → Bool) (kill_ok : ℕ → Bool) where
  -- One client that is to be closed.
  unfoldable pub close : ConnectedClient → Swept → Swept
  close c done =
      if kill_ok c.client_id
      then record {
        closed = suc done.closed;
        kills = c.client_id ∷ done.kills;
        reaped = (c, now - c.connected_since) ∷ done.reaped;
      }
      else record done { kills = c.client_id ∷ done.kills }

  -- The loop of Sweep, over the clients that Clients returned.
  unfoldable pub sweep_clients : List ConnectedClient → Swept
  sweep_clients [] = nothing_swept
  sweep_clients (c ∷ cs) =
      let rest = sweep_clients cs in
      if is_empty c.virtual_address
      then rest
      else if signed_in c.virtual_address
      then rest
      else if ltb (now - c.connected_since) s.after
      then rest
      else close c rest

-- Sweep: nothing on a nil sweeper, and none where the clients cannot be listed.
unfoldable pub sweep :
    Option IdleSweeper
    → ℕ
    → (Text → Bool)
    → (ℕ → Bool)
    → Option (List ConnectedClient)
    → Option Swept
unfolding sweep_clients
sweep none now signed_in kill_ok clients = some nothing_swept
sweep (some s) now signed_in kill_ok none = none
sweep (some s) now signed_in kill_ok (some cs) = some (sweep_clients s now signed_in kill_ok cs)
