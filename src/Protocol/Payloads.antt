-- ===== src/Protocol/Payloads.antt =====
-- common/include/icss/protocol/payloads.hpp and the serialize and parse functions of
-- common/src/serialization.cpp, for the payloads without floats.
pub mod Envelope
pub mod Fieldwise
pub mod Sessions
pub mod Scenario
pub mod Commands
pub mod Review
pub mod Pictures
