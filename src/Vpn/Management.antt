-- ===== src/Vpn/Management.antt =====
-- internal/vpn/management.go: commands on OpenVPN's control channel. OpenVPN is what answers a
-- command after those that were sent before: with none where it cannot be reached. The commands
-- sent, newest first, are the state.
pub mod Commands
use dvarpala.Base.{
  ℕ, zero, suc, ◌+◌, ◌&&◌, ◌||◌, not, Bool, true, false, List, [], ◌∷◌, ◌++◌, Option, none, some,
  Text, codes, has_prefix, contains_any, text_eq, is_empty, is_space, ltb, leb, ◌==◌, if◌then◌else◌,
  length, map, keep, ℤ, pos, parse_int, show_int,
}
use dvarpala.Platform.{Result, ok, err, Error, no_management, reply_broken, bad_argument, no_reply}
use dvarpala.Net.{split_at}

-- The lines that came until the connection ended, and whether reading ended with an error.
pub record Transcript : Type 0 where
  pub lines : List Text
  pub failed : Bool

abbrev pub OpenVpn : Type 0
OpenVpn = List Text → Text → Option Transcript

pub record ConnectedClient : Type 0 where
  pub common_name : Text
  pub real_address : Text
  pub virtual_address : Text
  pub bytes_received : ℤ
  pub bytes_sent : ℤ
  pub connected_since : Option ℤ
  pub client_id : ℤ

-- strings.TrimRight(line, "\r")
unfoldable pub trim_cr : Text → Text
trim_cr [] = []
trim_cr (c ∷ s) = let rest = trim_cr s in if c == 13 && is_empty rest then [] else c ∷ rest

abbrev pub is_notice : Text → Bool
is_notice line = has_prefix (b'>' ∷ []) line

abbrev pub is_break : ℕ → Bool
is_break c = c == 13 || c == 10

abbrev pub with_line : Text → Result (List Text) → Result (List Text)
with_line line (ok lines) = ok (line ∷ lines)
with_line line (err e) = err e

-- The loop of command over the lines that come.
unfoldable pub collect : (Text → Bool) → Bool → List Text → Result (List Text)
collect done failed [] = if failed then err reply_broken else ok []
collect done failed (l ∷ ls) =
    let rest = collect done failed ls in
    let line = trim_cr l in
    if is_notice line then rest else if done line then ok (line ∷ []) else with_line line rest

abbrev pub reply : (Text → Bool) → Option Transcript → Result (List Text)
reply done none = err no_management
reply done (some t) = collect done t.failed t.lines

-- The end of the reply to a command, and of the reply to status.
abbrev pub is_verdict : Text → Bool
is_verdict line = has_prefix (codes "SUCCESS:") line || has_prefix (codes "ERROR:") line

abbrev pub is_end : Text → Bool
is_end line = text_eq line (codes "END")

abbrev pub last_of : Text → List Text → Text
last_of d [] = d
last_of d (x ∷ xs) = last_of x xs

-- strings.Fields: the word at the front, and the words behind it.
abbrev pub word_before : Text → List Text → List Text
word_before [] ws = ws
word_before (c ∷ w) ws = (c ∷ w) ∷ ws

unfoldable pub words : Text → Text × List Text
words [] = ([], [])
words (c ∷ s) = let (w, ws) = words s in if is_space c then ([], word_before w ws) else (c ∷ w, ws)

abbrev pub fields : Text → List Text
fields s = let (w, ws) = words s in word_before w ws

-- The first word of a reply that is a number, or 1.
unfoldable pub first_number : List Text → ℤ
first_number [] = pos 1
first_number (w ∷ ws) =
    let rest = first_number ws in if (parse_int w).1 then (parse_int w).0 else rest

abbrev pub closed : Result (List Text) → Result ℤ
closed (err e) = err e
closed (ok []) = err no_reply
closed (ok (l ∷ ls)) =
    if has_prefix (codes "ERROR:") (last_of l ls)
    then ok (pos 0)
    else ok (first_number (fields (last_of l ls)))

-- Field i of a line, where there is one.
unfoldable pub field : ℕ → List Text → Text
field i [] = []
field zero (f ∷ fs) = f
field (suc i) (f ∷ fs) = field i fs

abbrev pub unix_time : ℤ × Bool → Option ℤ
unix_time (secs, true) = some secs
unix_time (secs, false) = none

abbrev pub client_of : List Text → ConnectedClient
client_of f = record {
  common_name = field 1 f;
  real_address = field 2 f;
  virtual_address = field 3 f;
  bytes_received = (parse_int (field 5 f)).0;
  bytes_sent = (parse_int (field 6 f)).0;
  connected_since = if ltb 8 (length f) then unix_time (parse_int (field 8 f)) else none;
  client_id = if ltb 10 (length f) then (parse_int (field 10 f)).0 else pos 0;
}

abbrev pub is_client : List Text → Bool
is_client f = not (ltb (length f) 8) && text_eq (field 0 f) (codes "CLIENT_LIST")

abbrev pub clients_in : Result (List Text) → Result (List ConnectedClient)
clients_in (err e) = err e
clients_in (ok lines) = ok (map client_of (keep is_client (map (split_at 9) lines)))

abbrev pub sent : Result (List Text) → Result (Unit {0})
sent (err e) = err e
sent (ok lines) = ok tt

abbrev pub kill_client_line : ℤ → Text → Text
kill_client_line id message = codes "client-kill " ++ (show_int id ++ (b' ' ∷ message))

module _ (vpn : OpenVpn) where
  unfoldable pub command : (Text → Bool) → Text → List Text → Result (List Text) × List Text
  command done cmd history = (reply done (vpn history cmd), cmd ∷ history)

  unfoldable pub clients : List Text → Result (List ConnectedClient) × List Text
  clients history = let (r, h) = command is_end (codes "status 3") history in (clients_in r, h)

  unfoldable pub kill : Text → List Text → Result ℤ × List Text
  kill common_name history =
      if contains_any is_break common_name
      then (err bad_argument, history)
      else let (r, h) = command is_verdict (codes "kill " ++ common_name) history in (closed r, h)

  unfoldable pub kill_client : ℤ → Text → List Text → Result (Unit {0}) × List Text
  kill_client id message history =
      let text = if is_empty message then codes "HALT" else message in
      if contains_any is_break text
      then (err bad_argument, history)
      else let (r, h) = command is_verdict (kill_client_line id text) history in (sent r, h)

  abbrev pub restart : ConnectedClient → List Text → Result (List Text) × List Text
  restart c history = command is_verdict (kill_client_line c.client_id (codes "RESTART")) history

  abbrev pub asked_one : (ℕ × Option Error) × List Text → (ℕ × Option Error) × List Text
  asked_one ((asked, e), h) = ((suc asked, e), h)

  -- The loop of Reconnect: how many it asked, and the error that ended it.
  unfoldable pub restart_all :
      Text → List ConnectedClient → List Text → (ℕ × Option Error) × List Text
  restart_all common_name [] history = ((0, none), history)
  restart_all common_name (c ∷ cs) history = elim (text_eq c.common_name common_name) [
    | false ↦ restart_all common_name cs history
    | true ↦ elim (restart c history).0 [
      | err x ↦ ((0, some x), (restart c history).1)
      | ok lines ↦ asked_one (restart_all common_name cs (restart c history).1)
    ]
  ]

  abbrev pub restart_listed :
      Text → Result (List ConnectedClient) × List Text → (ℕ × Option Error) × List Text
  restart_listed common_name (err e, h) = ((0, some e), h)
  restart_listed common_name (ok cs, h) = restart_all common_name cs h

  unfoldable pub reconnect : Text → List Text → (ℕ × Option Error) × List Text
  reconnect common_name history = restart_listed common_name (clients history)
