-- ===== src/Teams.antt =====
-- eidolon_data/services/teams.py: saved team revisions and their starts.
pub mod Sdk
pub mod Tables
pub mod Assets
pub mod Starts
pub mod StartPages
pub mod Effects
pub mod StartEffects
pub mod Calls
pub mod Lasting
pub mod Replay
pub mod Holding
pub mod Exclusion
pub mod Reached
pub mod Keys
pub mod Runs
pub mod Reading
