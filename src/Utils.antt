-- ===== src/Utils.antt =====
-- mrp2-utils/src/utils.rs, one module for each group of helpers.
pub mod Compare
pub mod Pack
pub mod Search
mod Tests
