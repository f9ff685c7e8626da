-- ===== src/Examples.antt =====
-- Runs of the modelled code on concrete inputs.
pub mod Caches
pub mod Rooms
pub mod Limits
pub mod Pages
pub mod Sessions
pub mod Challenges
pub mod Handshakes
pub mod Relays
pub mod Catalogs
pub mod Consoles
