-- ===== src/Services/Audit.antt =====
-- internal/services/audit.go: records of what happened. A record that cannot be written is dropped.
pub mod Writing
use dvarpala.Base.{
  ℕ, ◌+◌, ◌-◌, ◌&&◌, ◌||◌, not, Bool, true, false, String, Text, List, [], ◌∷◌, Option, none, some,
  map, keep, find, take, str_eq, is_empty, to_lower, trim_space, text_eq, ltb, leb, ◌==◌,
  if◌then◌else◌, codes,
}
use mathlib.Core.List.{reverse}
use dvarpala.Models.{AuditLog, Detail, text, User}
use dvarpala.Platform.{Env, Exec, World, ok, execute, select}
use dvarpala.Platform.Database.{Tables, add_row}

-- services.Entry
pub record Entry : Type 0 where
  pub user_id : Option ℕ
  pub action : String
  pub resource_type : String
  pub resource_id : Option ℕ
  pub ip_address : Text
  pub details : List (String × Detail)

abbrev pub to_row : ℕ → Entry → ℕ → AuditLog
to_row now e id = record {
  id = id;
  user_id = e.user_id;
  action = e.action;
  resource_type = e.resource_type;
  resource_id = e.resource_id;
  ip_address = e.ip_address;
  details = e.details;
  created_at = now;
  deleted = false;
}

abbrev pub append_log : ℕ → Entry → Tables → Tables
append_log now e t = record t { audit_logs = add_row (to_row now e) t.audit_logs }

-- AuditService.Log: a failure to write is swallowed.
unfoldable pub log : {env : Env} → ℕ → Entry → Exec env (Unit {0})
log now e w = (ok tt, (execute (append_log now e) w).1)

-- AuditQuery: empty fields and zeros do not restrict.
pub record AuditQuery : Type 0 where
  pub email : Text
  pub action : Text
  pub since : ℕ
  pub limit : ℕ

pub record AuditRecord : Type 0 where
  pub row : AuditLog
  pub email : Text

-- LEFT JOIN users: the address of the actor, or none.
abbrev pub actor_email : Tables → AuditLog → Option Text
actor_email t row = elim row.user_id [
  | none ↦ none
  | some i ↦ elim (find (λ (u : User). u.id == i) t.users.rows) [
    | none ↦ none
    | some u ↦ some u.email
  ]
]

-- details->>'email'
unfoldable pub detail_email : List (String × Detail) → Option Text
detail_email [] = none
detail_email ((k, v) ∷ r) =
    if str_eq k "email" then elim v [ text e ↦ some e | _ ↦ none ] else detail_email r

abbrev pub is_text : Text → Option Text → Bool
is_text e none = false
is_text e (some x) = text_eq x e

abbrev pub lowered : Option Text → Option Text
lowered none = none
lowered (some x) = some (to_lower x)

-- The WHERE clauses of List. `codes` of an action compares it with the text asked for.
unfoldable pub selects : ℕ → AuditQuery → Tables → AuditLog → Bool
selects now q t row =
    let e = to_lower (trim_space q.email) in
    let a = trim_space q.action in
    not row.deleted
    && (is_empty e
        || is_text e (lowered (actor_email t row))
        || is_text e (detail_email row.details))
    && (is_empty a || text_eq (codes row.action) a)
    && (q.since == 0 || leb (now - q.since) row.created_at)

-- Newest first: the rows stand in the order of their identifiers.
unfoldable pub list_rows : ℕ → AuditQuery → Tables → List AuditRecord
list_rows now q t =
    let limit = if ltb 0 q.limit then q.limit else 50 in
    map (λ row. record { row = row; email = elim (actor_email t row) [ none ↦ [] | some e ↦ e ] })
      (take limit (keep (selects now q t) (reverse t.audit_logs.rows)))

abbrev pub list : {env : Env} → ℕ → AuditQuery → Exec env (List AuditRecord)
list now q = select (list_rows now q)

-- Actions: how often each action was recorded; a name comes at its first record.
abbrev pub count_in : String → List (String × ℕ) → List (String × ℕ)
count_in a [] = (a, 1) ∷ []
count_in a ((b, n) ∷ r) =
    let rest = count_in a r in if str_eq b a then (b, n + 1) ∷ r else (b, n) ∷ rest

unfoldable pub action_counts : List AuditLog → List (String × ℕ)
action_counts [] = []
action_counts (row ∷ rows) =
    let rest = action_counts rows in if row.deleted then rest else count_in row.action rest

abbrev pub actions : {env : Env} → Exec env (List (String × ℕ))
actions = select (λ t. action_counts t.audit_logs.rows)
