-- ===== src/Personas/Edits.antt =====
-- `PersonaService.edit` and `read_edit_snapshot`.
mod Stored
mod Steps
unfoldable pub use Stored.*
unfoldable pub use Steps.*
