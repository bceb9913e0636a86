-- ===== src/Query.antt =====
-- mr-plonky2-circuits/src/query2: the circuits that answer a query over the prover's trees. A proof over
-- the entries of one contract's storage is opened in the state tree and in the block of its leaf,
-- the blocks are aggregated up to the root of the block tree, and the revelation shows the keys.
pub mod Storage
pub mod Blocks
pub mod Revelation
pub mod Entries
pub mod Layout
pub mod RevelationLayout
pub mod Aggregates
pub mod Answers
pub mod Leaves
pub mod Inclusion
pub mod Revealed
pub mod Answer
mod Tests
