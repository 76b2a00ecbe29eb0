-- ===== src/Field.antt =====
-- field.go: the group of rows that holds a field's integers.
pub mod Depth
pub mod Group
pub mod Values
