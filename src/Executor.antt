-- ===== src/Executor.antt =====
-- executor.go: queries on one shard.
pub mod RowBsi
