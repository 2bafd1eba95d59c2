-- ===== src/Deletion.antt =====
-- eidolon_data/services/companion.py and eidolon_data/services/owner_deletion.py: the deletion of a
-- Companion and of an Owner.
pub mod Cascades
pub mod Companions
pub mod Owners
pub mod Remains
pub mod OwnerRows
pub mod OwnerGone
pub mod Pointers
