-- ===== src/Pql.antt =====
-- pql/: the query language.
pub mod Token
pub mod Condition
