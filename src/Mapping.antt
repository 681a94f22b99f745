-- ===== src/Mapping.antt =====
-- The mappings of src/mapping.c.
pub mod Key
pub mod Chain
pub mod Orders
pub mod State
pub mod Grow
pub mod Valid
pub mod Insert
pub mod Update
pub mod Laws
pub mod Whole
pub mod OneByOne
pub mod Nodes
pub mod Merge
pub mod Totals
pub mod Filled
pub mod Counted
pub mod Load
pub mod Union
pub mod Chains
pub mod Invariant
pub mod Filter
pub mod Success
pub mod Sums
pub mod Changes
pub mod Making
