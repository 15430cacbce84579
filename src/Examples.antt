-- ===== src/Examples.antt =====
-- The theorems at concrete inputs.
pub mod Index
pub mod Attributes
pub mod Customers
pub mod Partitions
pub mod Broker
pub mod Log
pub mod Merge
pub mod Properties
pub mod Indexing
pub mod Grid
pub mod Packing
pub mod Workers
