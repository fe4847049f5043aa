-- ===== src/Verifier.antt =====
-- include/lincheck/lincheck.hpp, `class LinearizabilityVerifier`: its search, what a linearization
-- is, and what the one says of the other.
pub mod Model
pub mod Intervals
pub mod Cache
pub mod Search
pub mod Linearization
pub mod Replay
pub mod RealTime
pub mod Candidate
pub mod SameKey
pub mod Memo
pub mod Remaining
pub mod Decide
pub mod Order
pub mod Complete
pub mod Classical
pub mod Named
pub mod Verdict
mod Tests
