-- ===== src/Api/Service.antt =====
-- The outcome of a service function: a value, or an error that is thrown
-- (apps/messaging-service/src/utils/errors/AppError.ts, and the plain `Error`).
use messaging_system.Common.{ℕ, String, Bool, true, false}

pub data Failure : Type 0 where
  app_error : String → ℕ → String → Failure
  plain_error : String → Failure

pub data Outcome {ℓ} (A : Type ℓ) : Type ℓ where
  ok : A → Outcome A
  failed : Failure → Outcome A

-- Errors pass through a chain of calls.
infixl 5 ◌>>=◌
unfoldable pub ◌>>=◌ {ℓ κ} : {A : Type ℓ} {B : Type κ} → Outcome A → (A → Outcome B) → Outcome B
ok a >>= f = f a
failed e >>= f = failed e

abbrev pub is_ok {ℓ} : {A : Type ℓ} → Outcome A → Bool
is_ok (ok a) = true
is_ok (failed e) = false

-- `await` of a call that changes a state, then what follows it, unless the call throws.
abbrev pub and_then {ℓ} :
    {W : Type ℓ} {A : Type 0} {B : Type 0} → Outcome A × W → (A → W → Outcome B × W) → Outcome B × W
and_then (ok a, w) k = k a w
and_then (failed e, w) k = (failed e, w)
