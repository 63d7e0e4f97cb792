-- ===== src/Platform/Database.antt =====
-- The tables of the database, as gorm's statements of the program see them. A table gives a new
-- row an identifier that it has not given before.
use dvarpala.Base.{ℕ, suc, List, [], ◌∷◌, ◌++◌}
use dvarpala.Models.{
  User, Group, UserGroup, GroupPermission, Resource, AllowedDomain, VpnConfig, AuditLog,
}

pub record Table (R : Type 0) : Type 0 where
  pub rows : List R
  pub next_id : ℕ

abbrev pub empty_table : {R : Type 0} → Table R
empty_table = record { rows = []; next_id = 1 }

-- INSERT of the row that the new identifier gives.
abbrev pub add_row : {R : Type 0} → (ℕ → R) → Table R → Table R
add_row row t = record { rows = t.rows ++ row t.next_id ∷ []; next_id = suc t.next_id }

pub record Tables : Type 0 where
  pub users : Table User
  pub groups : Table Group
  pub resources : Table Resource
  pub domains : Table AllowedDomain
  pub configs : Table VpnConfig
  pub user_groups : List UserGroup
  pub permissions : List GroupPermission
  pub audit_logs : Table AuditLog

abbrev pub empty_tables : Tables
empty_tables = record {
  users = empty_table;
  groups = empty_table;
  resources = empty_table;
  domains = empty_table;
  configs = empty_table;
  user_groups = [];
  permissions = [];
  audit_logs = empty_table;
}
