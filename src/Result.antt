-- ===== src/Result.antt =====
-- The result of code that may fail: Go's pair of a value and an error.
pub data Result (E A : Type 0) : Type 0 where
  ok : A → Result E A
  err : E → Result E A
