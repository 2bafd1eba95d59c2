-- ===== src/Personas.antt =====
-- eidolon_data/services/persona_service.py: the versions of a Companion's persona.
pub mod Sdk
pub mod Genomes
pub mod Edits
pub mod Restores
pub mod Evolution
pub mod Changes
pub mod Commands
pub mod Decisions
pub mod EditEffects
pub mod Receipts
pub mod EditChange
pub mod Calls
pub mod Decided
pub mod Pointers
pub mod Current
pub mod Replay
pub mod Walk
pub mod Locks
pub mod Approvals
