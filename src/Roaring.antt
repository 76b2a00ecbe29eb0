-- ===== src/Roaring.antt =====
-- roaring/: compressed bitmaps.
pub mod Sorted
pub mod Search
pub mod Update
pub mod Rows
pub mod Size
pub mod Bitset
pub mod Container
pub mod Intersect
pub mod IntersectionCount
pub mod Difference
pub mod Union
pub mod Btree
pub mod Run
pub mod Array
