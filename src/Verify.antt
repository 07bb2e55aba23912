-- ===== src/Verify.antt =====
-- `TPath::VerifyTEConstraints` of src/tedbManager/tewg.cc: Loop follows the tags along the path, and Picks chooses
-- from what is left. A link and a node are numbers. The values of `random` are the argument `random`.
pub mod Loop
pub mod Picks
pub mod Untouched
pub mod Continuity
pub mod Layers
pub mod Twins
pub mod Accepted
