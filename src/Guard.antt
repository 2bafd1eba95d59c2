-- ===== src/Guard.antt =====
-- eidolon_data/repositories/guard_bindings.py: the governed binding of a guard Companion to a Device.
pub mod OpaqueId
pub mod Bindings
pub mod Effects
pub mod Calls
pub mod Exclusive
pub mod Lifecycle
pub mod Policy
