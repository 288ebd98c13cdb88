-- ===== src/Api/Outcome.antt =====
-- What a handler of negotium/app/api ends with: an answer, an `HTTPException`, or an exception that
-- nothing catches.
use patch_machine.Prelude.{ℕ, String}
use patch_machine.Python.{Exc}

pub data Outcome {ℓ} (A : Type ℓ) : Type ℓ where
  answer : A → Outcome A
  http_error : ℕ → String → Outcome A
  crash : Exc → Outcome A
