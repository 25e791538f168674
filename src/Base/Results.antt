-- ===== src/Base/Results.antt =====
-- The result of code with assertions.

-- What a step does when one of its assertions fails: the debug build stops at a trap, the other
-- one goes on into memory that it does not own.
pub data Outcome {ℓ} (A : Type ℓ) : Type ℓ where
  ok : A → Outcome A
  fault : Outcome A
