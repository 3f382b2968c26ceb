-- ===== src/U17.antt =====
-- The Dyaxis U17 tools: the image format, the emulated startup check, the loader's plan, and the
-- capture files.
pub mod Image
pub mod Emulator
pub mod Independent
pub mod Loader
pub mod Ucsim
pub mod Capture
pub mod Service
mod Tests
