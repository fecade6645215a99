-- ===== src/Tests.antt =====
-- The theorems applied at concrete inputs, by part.
pub mod Fixtures
pub mod Handles
pub mod Keys
pub mod Tokens
pub mod Sessions
pub mod Bytes
pub mod Objects
pub mod Handlers
pub mod Attributes
pub mod Saving
pub mod Reading
