-- ===== src/Go/Errors.antt =====
-- A function that returns a value and an error: the error is its message.
use cindex.Prelude.{Text}

pub data Result {ℓ} (A : Type ℓ) : Type ℓ where
  ok : A → Result A
  err : Text → Result A
