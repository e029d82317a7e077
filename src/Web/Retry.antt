-- ===== src/Web/Retry.antt =====
-- Retries of a request: apps/web-client/src/common/utils/retryAsync.ts. The function that is called is
-- an argument, with the outcome of each of its calls, and so is the test of an error. The waits are
-- listed in milliseconds.
pub mod Laws
mod Tests
use Prim.Native.Nat.{◌^◌}
use messaging_system.Common.{
  ℕ, zero, suc, ◌+◌, ◌-◌, ◌*◌, Bool, true, false, Option, none, some, List, [], ◌∷◌, not, ◌||◌,
  nat_eq, if◌then◌else◌,
}

pub data Attempt (T : Type 0) (E : Type 0) : Type 0 where
  returned : T → Attempt T E
  thrown : E → Attempt T E

pub record Retried (T : Type 0) (E : Type 0) : Type 0 where
  -- none is `throw undefined`, when there is no turn at all
  pub outcome : Option (Attempt T E)
  pub calls : ℕ
  pub waits : List ℕ

module _ {T : Type 0} {E : Type 0} (fn : ℕ → Attempt T E) (should_retry : E → ℕ → Bool) where
  abbrev and_wait : ℕ → Retried T E → Retried T E
  and_wait ms r = record { outcome = r.outcome; calls = suc r.calls; waits = ms ∷ r.waits }

  abbrev once : Attempt T E → Retried T E
  once outcome = record { outcome = some outcome; calls = 1; waits = [] }

  -- `throw lastError`
  abbrev last_outcome : Option E → Option (Attempt T E)
  last_outcome none = none
  last_outcome (some e) = some (thrown e)

  -- The turns that are left, of `max_attempts`, from `attempt` on.
  unfoldable pub retry_from : ℕ → ℕ → ℕ → ℕ → Option E → Retried T E
  retry_from max_attempts base_delay_ms zero attempt last_error = record {
    outcome = last_outcome last_error;
    calls = 0;
    waits = [];
  }
  retry_from max_attempts base_delay_ms (suc n) attempt last_error = elim (fn attempt) [
    | returned v ↦ once (returned v)
    | thrown e ↦
        let rest = retry_from max_attempts base_delay_ms n (suc attempt) (some e) in
        if nat_eq attempt (max_attempts - 1) || not (should_retry e attempt)
        then once (thrown e)
        else and_wait (base_delay_ms * 2 ^ attempt) rest
  ]

  unfoldable pub retry_async : ℕ → ℕ → Retried T E
  retry_async max_attempts base_delay_ms = retry_from max_attempts base_delay_ms max_attempts 0 none
