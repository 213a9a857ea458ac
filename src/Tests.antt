-- ===== src/Tests.antt =====
-- The theorems at concrete inputs, and runs of the definitions.
pub mod Dnames
pub mod Sorts
pub mod Vectors
pub mod Windows
pub mod Sets
pub mod Intervals
pub mod Indices
pub mod Positions
pub mod Pointers
pub mod Alignment
pub mod Numbers
pub mod Zones
pub mod Texts
pub mod Calls
pub mod Medians
pub mod Envs
pub mod Arrays
pub mod Rounds
