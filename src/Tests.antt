-- ===== src/Tests.antt =====
-- Runs at concrete inputs, and each theorem at an input that meets its hypotheses.
mod Fixtures
mod Audit
mod Guard
mod Teams
mod Faces
mod Personas
mod PersonaTheorems
mod Deletion
mod Photos
mod Directory
