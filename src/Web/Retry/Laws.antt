-- ===== src/Web/Retry/Laws.antt =====
-- How often a request is made, and what its retries answer.
use Prim.Native.Nat.{◌^◌}
use mathlib.Core.Path.{subst}
use messaging_system.Common.{
  ◌≡◌, refl, ap, ◌∙◌, ℕ, zero, suc, ◌+◌, ◌-◌, ◌*◌, ◌≤◌, Bool, Option, List, some, none, true, false,
  [], ◌∷◌, not, ◌||◌, nat_eq, arith, Bool-cases, inl, inr, ◌⊎◌,
}
use messaging_system.Web.Retry.{Attempt, returned, thrown, Retried, retry_from, retry_async}

Attempt-cases :
    {T : Type 0} {E : Type 0} (a : Attempt T E)
    → ((v : T) × (a ≡ returned v)) ⊎ ((e : E) × (a ≡ thrown e))
Attempt-cases (returned v) = inl (v, refl)
Attempt-cases (thrown e) = inr (e, refl)

module _ {T : Type 0} {E : Type 0} (fn : ℕ → Attempt T E) (should_retry : E → ℕ → Bool) where
  -- The last turn: one that returned, or whose error is not tried again.
  ends_here :
      (max_attempts base_delay_ms n attempt : ℕ) (last_error : Option E)
      → ((v : T) × (fn attempt ≡ returned v))
        ⊎ ((x : E) × (fn attempt ≡ thrown x)
            × ((nat_eq attempt (max_attempts - 1) || not (should_retry x attempt)) ≡ true))
      → retry_from fn should_retry max_attempts base_delay_ms (suc n) attempt last_error
        ≡ record { outcome = some (fn attempt); calls = 1; waits = [] }
  unfolding retry_from
  ends_here max_attempts base_delay_ms n attempt last_error (inl (v, e)) = ground (arith, e)
  ends_here max_attempts base_delay_ms n attempt last_error (inr (x, e, f)) = ground (arith, e, f)

  no_more :
      (max_attempts attempt : ℕ) (x : E)
      → suc attempt ≤ max_attempts
      → (nat_eq attempt (max_attempts - 1) || not (should_retry x attempt)) ≡ true
      → (suc attempt ≡ max_attempts) ⊎ (should_retry x attempt ≡ false)
  no_more max_attempts attempt x le h = elim (Bool-cases (should_retry x attempt)) [
    | inl again ↦ inl (ground (arith, le, h, again))
    | inr stop ↦ inr stop
  ]

  goes_on :
      (max_attempts base_delay_ms n attempt : ℕ) (last_error : Option E) (x : E)
      → fn attempt ≡ thrown x
      → (nat_eq attempt (max_attempts - 1) || not (should_retry x attempt)) ≡ false
      → let rest = retry_from fn should_retry max_attempts base_delay_ms n (suc attempt) (some x) in
        retry_from fn should_retry max_attempts base_delay_ms (suc n) attempt last_error ≡ record {
          outcome = rest.outcome;
          calls = suc rest.calls;
          waits = base_delay_ms * 2 ^ attempt ∷ rest.waits;
        }
  unfolding retry_from
  goes_on max_attempts base_delay_ms n attempt last_error x e f = ground (arith, e, f)

  -- From `attempt` on, that many calls threw an error that is tried again.
  abbrev pub AreRetried : ℕ → ℕ → Type 0
  AreRetried attempt zero = Unit
  AreRetried attempt (suc n) =
      ((x : E) × (fn attempt ≡ thrown x) × (should_retry x attempt ≡ true))
      × AreRetried (suc attempt) n

  -- The call returned, or threw an error that is not tried again or for which no attempt is left.
  abbrev pub IsLast : ℕ → ℕ → Type 0
  IsLast max_attempts last =
      ((v : T) × (fn last ≡ returned v))
      ⊎ ((x : E) × (fn last ≡ thrown x)
          × ((suc last ≡ max_attempts) ⊎ (should_retry x last ≡ false)))

  -- The waits before that many further calls, each twice as long as the one before.
  abbrev pub doubled : ℕ → ℕ → ℕ → List ℕ
  doubled base_delay_ms attempt zero = []
  doubled base_delay_ms attempt (suc n) =
      base_delay_ms * 2 ^ attempt ∷ doubled base_delay_ms (suc attempt) n

  -- A run from `attempt` to `last`, with `n` retries.
  IsRun : ℕ → ℕ → ℕ → Retried T E → Type 0
  IsRun max_attempts base_delay_ms attempt r =
      (n last : ℕ) × (last ≡ attempt + n)
      × (r.calls ≡ suc n)
      × (suc last ≤ max_attempts)
      × (r.outcome ≡ some (fn last))
      × (r.waits ≡ doubled base_delay_ms attempt n)
      × AreRetried attempt n
      × IsLast max_attempts last

  one_call :
      (max_attempts base_delay_ms attempt : ℕ)
      → suc attempt ≤ max_attempts
      → IsLast max_attempts attempt
      → IsRun max_attempts base_delay_ms attempt
          (record { outcome = some (fn attempt); calls = 1; waits = [] })
  unfolding IsRun
  one_call max_attempts base_delay_ms attempt le last =
      (0, attempt, omega arith, refl, le, refl, refl, tt, last)

  and_one_call :
      (max_attempts base_delay_ms attempt : ℕ) (r : Retried T E) (x : E)
      → fn attempt ≡ thrown x
      → should_retry x attempt ≡ true
      → IsRun max_attempts base_delay_ms (suc attempt) r
      → IsRun max_attempts base_delay_ms attempt (record {
        outcome = r.outcome;
        calls = suc r.calls;
        waits = base_delay_ms * 2 ^ attempt ∷ r.waits;
      })
  unfolding IsRun
  and_one_call max_attempts base_delay_ms attempt r x e again
        (n, last, at, calls, le, outcome, waits, before, end) =
      (
        suc n,
        last,
        omega (arith, at),
        ap (λ k. suc k) calls,
        le,
        outcome,
        ap (λ (l : List ℕ). base_delay_ms * 2 ^ attempt ∷ l) waits,
        ((x, e, again), before),
        end,
      )

  retry_from_lem :
      (max_attempts base_delay_ms n attempt : ℕ) (last_error : Option E)
      → 1 ≤ n
      → attempt + n ≡ max_attempts
      → IsRun max_attempts base_delay_ms attempt
          (retry_from fn should_retry max_attempts base_delay_ms n attempt last_error)
  retry_from_lem max_attempts base_delay_ms zero attempt last_error p q = absurd (omega arith)
  retry_from_lem max_attempts base_delay_ms (suc n) attempt last_error p q =
      elim (Attempt-cases (fn attempt)) [
        | inl (v, e) ↦
            rw (ends_here max_attempts base_delay_ms n attempt last_error (inl (v, e)))
              (one_call max_attempts base_delay_ms attempt (omega (arith, q)) (inl (v, e)))
        | inr (x, e) ↦
            elim (Bool-cases (nat_eq attempt (max_attempts - 1) || not (should_retry x attempt))) [
              | inl f ↦
                  rw (ends_here max_attempts base_delay_ms n attempt last_error (inr (x, e, f))) (
                    one_call max_attempts base_delay_ms attempt (omega (arith, q))
                      (inr (x, e, no_more max_attempts attempt x (omega (arith, q)) f)))
              | inr f ↦ rw (goes_on max_attempts base_delay_ms n attempt last_error x e f) (
                  and_one_call max_attempts base_delay_ms attempt
                    (retry_from fn should_retry max_attempts base_delay_ms n (suc attempt) (some x))
                    x e (ground (arith, f))
                    (retry_from_lem max_attempts base_delay_ms n (suc attempt) (some x)
                      (ground (arith, f, q)) (omega (arith, q))))
            ]
      ]

  -- With at least one attempt allowed, some call is the last: no later than allowed, and one that
  -- returned, or whose error is not tried again or had no attempt left. All calls before it threw an
  -- error that is tried again; the waits between them double from the base delay; and the outcome is
  -- that of the last call.
  pub retry_async-IsRun :
      (max_attempts base_delay_ms : ℕ)
      → 1 ≤ max_attempts
      → let r = retry_async fn should_retry max_attempts base_delay_ms in
        (last : ℕ) × (r.calls ≡ suc last)
        × (suc last ≤ max_attempts)
        × (r.outcome ≡ some (fn last))
        × (r.waits ≡ doubled base_delay_ms 0 last)
        × AreRetried 0 last
        × IsLast max_attempts last
  unfolding retry_async IsRun
  retry_async-IsRun max_attempts base_delay_ms p =
      let (n, last, at, calls, le, outcome, waits, before, end) =
        retry_from_lem max_attempts base_delay_ms max_attempts 0 none p (omega arith) in
      let same : last ≡ n = omega (arith, at) in
      (
        n,
        calls,
        omega (arith, le, same),
        outcome ∙ ap (λ k. some (fn k)) same,
        waits,
        before,
        subst (IsLast max_attempts) same end,
      )
