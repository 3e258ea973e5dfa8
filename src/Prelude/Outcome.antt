-- ===== src/Prelude/Outcome.antt =====
-- A value or an error: the pair `(T, error)` of the source, of which one side counts.
pub data Result {ℓ κ} (E : Type ℓ) (A : Type κ) : Type (ℓ ⊔ κ) where
  ok : A → Result E A
  err : E → Result E A
