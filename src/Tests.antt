-- ===== src/Tests.antt =====
-- The theorems at concrete inputs.
pub mod Fixtures
pub mod Core
pub mod Messages
pub mod Handlers
pub mod Relaying
pub mod Reaching
pub mod Lifetimes
pub mod Looping
pub mod Starting
pub mod Meeting
pub mod Resolving
pub mod Texts
pub mod Ending
