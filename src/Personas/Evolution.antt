-- ===== src/Personas/Evolution.antt =====
-- `PersonaService.create_genome`, `record_observation`, `create_evolution_proposal`,
-- `approve_evolution` and `reject_evolution`.
mod Rows
mod Proposals
unfoldable pub use Rows.*
unfoldable pub use Proposals.*
