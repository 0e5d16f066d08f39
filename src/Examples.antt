-- ===== src/Examples.antt =====
-- Tests on concrete inputs, and each theorem that has hypotheses at an input that meets them.
pub mod Decimals
pub mod Aggregation
pub mod Ticks
pub mod Buckets
pub mod Flow
pub mod Queue
pub mod Venues
pub mod Deribit
