-- ===== src/Tests.antt =====
-- Runs of the definitions on concrete inputs, and the theorems at concrete inputs.
pub mod Program
pub mod Decoding
pub mod Database
pub mod Caching
pub mod Deciding
pub mod Locating
pub mod Serving
pub mod Refreshing
pub mod Asking
pub mod Starting
