-- ===== src/Services.antt =====
-- internal/services: the business logic over the database.
pub mod Audit
pub mod Users
pub mod VpnConfigs
pub mod Domains
pub mod Groups
pub mod Resources
pub mod Permissions
