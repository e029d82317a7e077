-- ===== src/Api/RateLimit/Budget.antt =====
-- How many calls a window admits, and that a window ends.
use messaging_system.Common.{
  ◌≡◌, ℕ, suc, ◌+◌, ◌-◌, ◌*◌, ◌≤◌, ◌<◌, min, String, true, false, none, some, List, [], ◌∷◌, arith,
  eq_iff, eq_refl, ◌==◌, All, Bool-cases, inl, inr,
}
use messaging_system.Api.RateLimit.{rate_limit_exceeded, Check, run_checks, admitted, count}
use messaging_system.Api.RateLimit.Redis.{Counter, Counters, live, IsLawful}
use messaging_system.Api.RateLimit.Window.{
  IsCounted, EndsBy, IsCounted_of_EndsBy, check_lem, check-IsCounted, run_checks-EndsBy, live_over,
}

-- The checks of a key have its window and its cap, and come before an end.
abbrev pub InWindow : String → ℕ → ℕ → ℕ → Check → Type 0
InWindow k w max end c =
    (c.key == k) ≡ true → (c.window_sec ≡ w) × (c.max_calls ≡ max) × (c.at < end)

module _ (redis : Counters) (lawful : IsLawful redis) where
  kept :
      (c : Check) (s : redis.State)
      → ((j : String) → IsCounted (redis.entry j s))
      → (j : String)
      → IsCounted
          (redis.entry j (rate_limit_exceeded redis c.key c.window_sec c.max_calls c.at s).1)
  kept c s p j =
      check-IsCounted redis lawful c.key j c.window_sec c.max_calls c.at s (p c.key) (p j)

  -- A check of the key in an open window counts one more.
  open_after :
      (k : String) (c : Check) (s : redis.State) (n end : ℕ)
      → redis.entry k s ≡ some (record { value = n; expires_at = some end })
      → (c.key == k) ≡ true
      → IsCounted (redis.entry c.key s)
      → c.at < end
      → redis.entry k (rate_limit_exceeded redis c.key c.window_sec c.max_calls c.at s).1
        ≡ some (record { value = suc n; expires_at = some end })
  open_after k c s n end e f p h =
      ground
        (arith, eq_iff c.key k, check_lem redis lawful c.key k c.window_sec c.max_calls c.at s p)

  -- A check of another key leaves the counter.
  kept_open :
      (k : String) (c : Check) (s : redis.State) (held : Counter)
      → redis.entry k s ≡ some held
      → (c.key == k) ≡ false
      → IsCounted (redis.entry c.key s)
      → redis.entry k (rate_limit_exceeded redis c.key c.window_sec c.max_calls c.at s).1
        ≡ some held
  kept_open k c s held e f p =
      ground (arith, check_lem redis lawful c.key k c.window_sec c.max_calls c.at s p)

  -- In an open window the rest of the budget is admitted.
  admitted_rest :
      (k : String) (w max n end : ℕ) (checks : List Check) (s : redis.State)
      → ((j : String) → IsCounted (redis.entry j s))
      → redis.entry k s ≡ some (record { value = n; expires_at = some end })
      → All (InWindow k w max end) checks
      → admitted redis k checks s ≡ min (count k checks) (max - n)
  unfolding admitted count
  admitted_rest k w max n end [] s p e q = omega arith
  admitted_rest k w max n end (c ∷ cs) s p e q = elim (Bool-cases (c.key == k)) [
    | inl f ↦ ground (
      arith,
      eq_iff c.key k,
      q.0 f,
      check_lem redis lawful c.key k c.window_sec c.max_calls c.at s (p c.key),
      admitted_rest k w max (suc n) end cs
          (rate_limit_exceeded redis c.key c.window_sec c.max_calls c.at s).1 (kept c s p)
          (open_after k c s n end e f (p c.key) (q.0 f).2) q.1,
    )
    | inr f ↦ ground (
      arith,
      check_lem redis lawful c.key k c.window_sec c.max_calls c.at s (p c.key),
      admitted_rest k w max n end cs
          (rate_limit_exceeded redis c.key c.window_sec c.max_calls c.at s).1 (kept c s p)
          (kept_open k c s (record { value = n; expires_at = some end }) e f (p c.key)) q.1,
    )
  ]

  opened :
      (k : String) (w max t : ℕ) (s : redis.State)
      → IsCounted (redis.entry k s)
      → live t (redis.entry k s) ≡ none
      → redis.entry k (rate_limit_exceeded redis k w max t s).1
        ≡ some (record { value = 1; expires_at = some (t + w * 1000) })
  opened k w max t s p e = ground (arith, eq_refl k, check_lem redis lawful k k w max t s p)

  -- Of the checks of one key within a window, among checks of other keys, as many pass as the cap
  -- allows and no more: the first of them finds no live counter and opens the window.
  pub admitted_budget :
      (k : String) (w max t : ℕ) (checks : List Check) (s : redis.State)
      → ((j : String) → IsCounted (redis.entry j s))
      → live t (redis.entry k s) ≡ none
      → All (InWindow k w max (t + w * 1000)) checks
      → admitted redis k (record { key = k; window_sec = w; max_calls = max; at = t } ∷ checks) s
        ≡ min (suc (count k checks)) max
  unfolding admitted
  admitted_budget k w max t checks s p e q =
      let first : Check = record { key = k; window_sec = w; max_calls = max; at = t } in
      ground (
        arith,
        eq_refl k,
        check_lem redis lawful k k w max t s (p k),
        admitted_rest k w max 1 (t + w * 1000) checks (rate_limit_exceeded redis k w max t s).1
            (kept first s p) (opened k w max t s (p k) e) q,
      )

  -- No key stays blocked: when every counter ends by `limit` at first, and each check of a sequence
  -- opens a window that ends by `limit`, then from `limit` on a check of any key passes, when its
  -- cap is not zero.
  pub run_checks-unblocks :
      (k : String) (w max limit now : ℕ) (checks : List Check) (s : redis.State)
      → ((j : String) → EndsBy limit (redis.entry j s))
      → All (λ c. c.at + c.window_sec * 1000 ≤ limit) checks
      → limit ≤ now
      → 1 ≤ max
      → (rate_limit_exceeded redis k w max now (run_checks redis checks s)).0 ≡ false
  run_checks-unblocks k w max limit now checks s p q h m =
      let after = run_checks redis checks s in
      let ends = run_checks-EndsBy redis lawful k limit checks s p q in
      ground (
        arith,
        check_lem redis lawful k k w max now after
            (IsCounted_of_EndsBy limit (redis.entry k after) ends),
        live_over limit now (redis.entry k after) ends h,
      )
