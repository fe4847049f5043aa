-- ===== src/Opacity.antt =====
-- include/lincheck/lincheck.hpp: the STM opacity verifier, of histories of transactions.
pub mod Event
pub mod History
pub mod Builder
pub mod Reads
pub mod Observers
pub mod Placement
pub mod Ordering
pub mod Graph
pub mod Search
pub mod Check
mod Tests
