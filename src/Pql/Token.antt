-- ===== src/Pql/Token.antt =====
-- pql/token.go: the operators of a condition.
pub data Token : Type 0 where
  illegal assign eq neq lt lte gt gte between : Token
