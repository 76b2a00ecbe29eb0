-- ===== src/Fragment.antt =====
-- fragment.go: one shard of a view.
pub mod Bsi
pub mod Range
pub mod Extreme
pub mod Storage
pub mod State
pub mod Value
