-- ===== src/Session.antt =====
-- SimulationSession (common/include/icss/core/simulation.hpp and common/src/simulation*.cpp).
pub mod Geometry
pub mod Schedule
pub mod State
pub mod Snapshots
pub mod Clients
pub mod Track
pub mod Commands
pub mod Tick
pub mod Run
pub mod Invariant
pub mod Stages
pub mod Reach
pub mod Engagement
pub mod Outcomes
pub mod Phases
pub mod Numbering
pub mod Staleness
pub mod Bounds
pub mod Summary
pub mod Growth
