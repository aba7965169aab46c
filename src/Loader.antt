-- ===== src/Loader.antt =====
-- dll_loader/dll_loader.c: a PE image is parsed, copied, linked and relocated.
pub mod Types
pub mod Run
pub mod Parse
pub mod Imports
pub mod Relocate
pub mod Load
pub mod Kept
pub mod Messages
pub mod Sample
mod Tests
