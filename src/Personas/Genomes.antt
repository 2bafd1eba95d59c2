-- ===== src/Personas/Genomes.antt =====
-- The tables of services/persona_service.py: its module-level helpers, which each of its commands
-- calls inside one transaction.
mod Tables
mod Versions
unfoldable pub use Tables.*
unfoldable pub use Versions.*
