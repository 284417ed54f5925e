-- ===== src/Core.antt =====
-- The shared data of the core: enumerations, structs, the scenario configuration and its validation.
pub mod Types
pub mod Config
pub mod Validation
