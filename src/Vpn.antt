-- ===== src/Vpn.antt =====
-- The side of the program that OpenVPN asks and that acts on tunnels: internal/api/vpnapi and
-- internal/vpn.
pub mod Access
pub mod Authority
pub mod Management
pub mod Idle
