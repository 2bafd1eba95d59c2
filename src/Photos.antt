-- ===== src/Photos.antt =====
-- eidolon_data/services/person_faces.py: the photo of a Person, with its file in the object store.
pub mod Images
pub mod Storage
pub mod Faces
pub mod Effects
pub mod Undo
pub mod Kept
