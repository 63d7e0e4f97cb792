-- ===== src/Models.antt =====
-- The records that the program keeps: the tables of internal/database/models, and the session of
-- internal/auth/session.go. Times are nanoseconds since the epoch; a soft-delete stamp is a flag.
-- Associations are the rows of the tables that link; columns that no modelled code reads are left
-- out.
use dvarpala.Base.{ℕ, ℤ, Bool, List, Option, String, Text, ◌*◌}

-- time.Second
abbrev pub second : ℕ
second = 1000000000

abbrev pub minute : ℕ
minute = 60 * second

abbrev pub hour : ℕ
hour = 60 * minute

pub data UserStatus : Type 0 where
  active inactive suspended : UserStatus

pub record User : Type 0 where
  pub id : ℕ
  pub email : Text
  pub full_name : Text
  pub department : Text
  pub status : UserStatus
  pub last_login : Option ℕ
  pub deleted : Bool

pub record Group : Type 0 where
  pub id : ℕ
  pub name : Text
  pub description : Text
  pub parent_id : Option ℕ
  pub deleted : Bool

-- A row of user_groups.
pub record UserGroup : Type 0 where
  pub user_id : ℕ
  pub group_id : ℕ

pub data PermissionType : Type 0 where
  read write admin ssh full : PermissionType

pub record GroupPermission : Type 0 where
  pub group_id : ℕ
  pub resource_id : ℕ
  pub permission_type : PermissionType

pub data ResourceType : Type 0 where
  dashboard vm database service : ResourceType

pub record Resource : Type 0 where
  pub id : ℕ
  pub name : Text
  pub kind : ResourceType
  pub url : Text
  pub ip_address : Text
  pub port : ℤ
  pub description : Text
  pub deleted : Bool

pub record AllowedDomain : Type 0 where
  pub id : ℕ
  pub domain : Text
  pub added_by : Text
  pub note : Text

pub data VpnConfigStatus : Type 0 where
  active inactive revoked : VpnConfigStatus

pub record VpnConfig : Type 0 where
  pub id : ℕ
  pub user_id : ℕ
  pub config_name : Text
  pub client_cert : Text
  pub client_key : Text
  pub ca_cert : Text
  pub config_data : Text
  pub status : VpnConfigStatus
  pub expires_at : Option ℕ
  pub deleted : Bool

-- A value in the details of an audit record.
pub data Detail : Type 0 where
  text : Text → Detail
  texts : List Text → Detail
  number : ℕ → Detail
  flag : Bool → Detail

pub record AuditLog : Type 0 where
  pub id : ℕ
  pub user_id : Option ℕ
  pub action : String
  pub resource_type : String
  pub resource_id : Option ℕ
  pub ip_address : Text
  pub details : List (String × Detail)
  pub created_at : ℕ
  pub deleted : Bool

-- What a successful authentication produces.
pub record Session : Type 0 where
  pub token : Text
  pub user_id : ℕ
  pub email : Text
  pub provider : Text
  pub groups : List Text
  pub client_ip : Text
  pub issued_at : ℕ
  pub expires : ℕ
