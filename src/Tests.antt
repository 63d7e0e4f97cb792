-- ===== src/Tests.antt =====
-- Runs of the model on small inputs.
mod LocalCodec
mod Local
mod Auth
mod Login
mod Services
mod Vpn
mod Access
mod Creation
mod Management
mod Web
mod Configs
mod Mail
mod Providers
mod Readers
mod App
