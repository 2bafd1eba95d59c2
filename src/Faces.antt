-- ===== src/Faces.antt =====
-- eidolon_data/repositories/companion_face_assets.py and owner_face_profiles.py: versioned faces.
pub mod StoredFile
pub mod Assets
pub mod Current
pub mod OneActive
pub mod Profiles
pub mod References
pub mod Desired
