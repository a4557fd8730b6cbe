-- ===== src/Agent.antt =====
-- The Windows agent as the configuration page meets it, client-windows/internal: mapping, config
-- and setup. A Go string is a text, compared as such.
pub mod Texts
pub mod Mapping
pub mod Config
pub mod Setup
pub mod Exposure
pub mod Warnings
pub mod Refused
pub mod Pushed
pub mod Held
pub mod Catalog
pub mod PatternTest
pub mod Guard
pub mod Renamed
