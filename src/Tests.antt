-- ===== src/Tests.antt =====
-- Runs of the theorems and of the definitions on concrete inputs.
pub mod Device
pub mod CardInfo
pub mod Cores
pub mod Programming
pub mod Phases
pub mod Examples
pub mod Tool
mod Derive
mod Wired
mod Repository
pub mod Race
