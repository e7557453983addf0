-- ===== src/Tests.antt =====
-- Runs of the definitions on concrete inputs, and the theorems on concrete inputs.
pub mod Blocks
pub mod Tables
pub mod Shares
pub mod Cardinality
pub mod Files
pub mod Oprf
pub mod Store
pub mod Intersection
pub mod Net
pub mod Requests
pub mod Batch
pub mod Circuit
pub mod Table
pub mod Hidden
