-- ===== src/Equality.antt =====
-- `Equality` of triangle_counting/equality.h: two parties, each with 64-bit words, compute shares
-- of the bits that tell which of their words are equal. The build without `WAN_EXEC` is modelled.
-- Arrays are functions from the index; an array of bytes that hold 0 or 1 is one of Booleans.
-- What a new array holds before it is written is a parameter, `stale`.
pub mod Beaver
pub mod Conj
pub mod Doubling
pub mod Setup
pub mod Leaf
pub mod Traverse
pub mod Compare
pub mod Threads
pub mod Blocks
pub mod Batch
