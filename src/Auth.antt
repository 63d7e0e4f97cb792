-- ===== src/Auth.antt =====
-- internal/auth: sessions, emailed codes, emergency access and the login flow.
pub mod Session
pub mod Otp
pub mod BreakGlass
pub mod Login
pub mod Mail
pub mod Providers
