-- ===== src/Tests.antt =====
-- The theorems about the program at concrete inputs.
pub mod TagSets
pub mod Fields
pub mod Deltas
pub mod Events
pub mod Paths
pub mod Routes
pub mod Searches
pub mod Requests
pub mod Messages
