-- ===== src/Directory.antt =====
-- eidolon_data/repositories/owners.py, companions.py and memory.py, and
-- eidolon_data/services/persona_access.py, which joins them to the persona service.
pub mod Owners
pub mod Companions
pub mod Realms
pub mod Access
