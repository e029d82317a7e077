-- ===== src/Api/RateLimit/Window.antt =====
-- What one check does to the counters, and that every counter has an end.
use messaging_system.Common.{
  ◌≡◌, ◌⊎◌, refl, ℕ, suc, ◌+◌, ◌*◌, ◌≤◌, String, Option, none, some, List, [], ◌∷◌, arith, eq_refl,
  ltb, leb, if◌then◌else◌, ◌==◌, All, Bool-cases, Option-cases, inl, inr,
}
use messaging_system.Api.RateLimit.{fixed_window_increment, rate_limit_exceeded, Check, run_checks}
use messaging_system.Api.RateLimit.Redis.{Counter, Counters, live, IsLawful}

-- The counter behind a check: the first of a window sets its end, the others keep it.
abbrev pub bumped : ℕ → ℕ → Option Counter → Counter
bumped w now none = record { value = 1; expires_at = some (now + w * 1000) }
bumped w now (some c) = record { value = suc c.value; expires_at = c.expires_at }

-- A counter has counted a call.
abbrev pub IsCounted : Option Counter → Type 0
IsCounted none = Unit
IsCounted (some c) = 1 ≤ c.value

-- It also ends by `limit`.
abbrev pub EndsBy : ℕ → Option Counter → Type 0
EndsBy limit none = Unit
EndsBy limit (some c) = (1 ≤ c.value) × (elim c.expires_at [ none ↦ ⊥ | some d ↦ d ≤ limit ])

live-cases : (now : ℕ) (o : Option Counter) → (live now o ≡ none) ⊎ (live now o ≡ o)
live-cases now none = inl refl
live-cases now (some c) = elim (Option-cases c.expires_at) [
  | inl e ↦ simp e (inr refl)
  | inr (t, e) ↦ elim (Bool-cases (leb t now)) [
    | inl f ↦ simp (e, f) (inl refl)
    | inr f ↦ simp (e, f) (inr refl)
  ]
]

EndsBy-live : (now limit : ℕ) (o : Option Counter) → EndsBy limit o → EndsBy limit (live now o)
EndsBy-live now limit o p = elim (live-cases now o) [ inl e ↦ rw e tt | inr e ↦ rw e p ]

IsCounted-live : (now : ℕ) (o : Option Counter) → IsCounted o → IsCounted (live now o)
IsCounted-live now o p = elim (live-cases now o) [ inl e ↦ rw e tt | inr e ↦ rw e p ]

IsCounted_of_some : (o : Option Counter) (c : Counter) → o ≡ some c → IsCounted o → 1 ≤ c.value
IsCounted_of_some none c e p = cc
IsCounted_of_some (some d) c e p = ground (arith, p)

pub IsCounted_of_EndsBy : (limit : ℕ) (o : Option Counter) → EndsBy limit o → IsCounted o
IsCounted_of_EndsBy limit none p = tt
IsCounted_of_EndsBy limit (some c) p = p.0

IsCounted-bumped : (w now : ℕ) (o : Option Counter) → IsCounted (some (bumped w now o))
IsCounted-bumped w now none = omega arith
IsCounted-bumped w now (some c) = omega arith

EndsBy-bumped :
    (w now limit : ℕ) (o : Option Counter)
    → EndsBy limit o
    → now + w * 1000 ≤ limit
    → EndsBy limit (some (bumped w now o))
EndsBy-bumped w now limit none p q = (omega arith, q)
EndsBy-bumped w now limit (some c) p q = (omega arith, p.1)

pub live_over :
    (limit now : ℕ) (o : Option Counter) → EndsBy limit o → limit ≤ now → live now o ≡ none
live_over limit now none p h = refl
live_over limit now (some c) p h = ground (arith, p.1)

module _ (redis : Counters) (lawful : IsLawful redis) where
  -- The first call of a window sets the counter to one and its end.
  window-opens :
      (k j : String) (w now : ℕ) (s : redis.State)
      → live now (redis.entry k s) ≡ none
      → ((fixed_window_increment redis k w now s).0 ≡ 1)
        × (redis.entry j (fixed_window_increment redis k w now s).1 ≡ (
            if k == j
            then some (record { value = 1; expires_at = some (now + w * 1000) })
            else redis.entry j s))
  unfolding fixed_window_increment
  window-opens k j w now s e = ground (
    arith,
    lawful.incr-value k now s,
    lawful.incr-entry k k now s,
    lawful.incr-entry k j now s,
    lawful.expire-entry k j w now (redis.incr k now s).1 (record { value = 1; expires_at = none }),
    eq_refl k,
  )

  -- A later call counts on, and keeps the end.
  window-counts :
      (k j : String) (w now : ℕ) (s : redis.State) (c : Counter)
      → live now (redis.entry k s) ≡ some c
      → 1 ≤ c.value
      → ((fixed_window_increment redis k w now s).0 ≡ suc c.value)
        × (redis.entry j (fixed_window_increment redis k w now s).1
            ≡ (if k == j then some (record c { value = suc c.value }) else redis.entry j s))
  unfolding fixed_window_increment
  window-counts k j w now s c e p =
      ground (arith, lawful.incr-value k now s, lawful.incr-entry k j now s)

  pub check_lem :
      (k j : String) (w max now : ℕ) (s : redis.State)
      → IsCounted (redis.entry k s)
      → ((rate_limit_exceeded redis k w max now s).0
          ≡ ltb max (bumped w now (live now (redis.entry k s))).value)
        × (redis.entry j (rate_limit_exceeded redis k w max now s).1 ≡ (
            if k == j then some (bumped w now (live now (redis.entry k s))) else redis.entry j s))
  unfolding rate_limit_exceeded
  check_lem k j w max now s p = elim (Option-cases (live now (redis.entry k s))) [
    | inl e ↦ ground (arith, window-opens k j w now s e)
    | inr (c, e) ↦ ground (
      arith,
      window-counts k j w now s c e (
          IsCounted_of_some (live now (redis.entry k s)) c e
            (IsCounted-live now (redis.entry k s) p)),
    )
  ]

  check-EndsBy :
      (k j : String) (w max now limit : ℕ) (s : redis.State)
      → EndsBy limit (redis.entry k s)
      → EndsBy limit (redis.entry j s)
      → now + w * 1000 ≤ limit
      → EndsBy limit (redis.entry j (rate_limit_exceeded redis k w max now s).1)
  check-EndsBy k j w max now limit s p p' q = elim (Bool-cases (k == j)) [
    | inl e ↦
        rw ((check_lem k j w max now s (IsCounted_of_EndsBy limit (redis.entry k s) p)).1, e)
          (EndsBy-bumped w now limit (live now (redis.entry k s))
            (EndsBy-live now limit (redis.entry k s) p) q)
    | inr e ↦
        rw ((check_lem k j w max now s (IsCounted_of_EndsBy limit (redis.entry k s) p)).1, e) p'
  ]

  pub check-IsCounted :
      (k j : String) (w max now : ℕ) (s : redis.State)
      → IsCounted (redis.entry k s)
      → IsCounted (redis.entry j s)
      → IsCounted (redis.entry j (rate_limit_exceeded redis k w max now s).1)
  check-IsCounted k j w max now s p p' = elim (Bool-cases (k == j)) [
    | inl e ↦
        rw ((check_lem k j w max now s p).1, e)
          (IsCounted-bumped w now (live now (redis.entry k s)))
    | inr e ↦ rw ((check_lem k j w max now s p).1, e) p'
  ]

  -- Every counter keeps an end through a sequence of checks.
  pub run_checks-EndsBy :
      (j : String) (limit : ℕ) (checks : List Check) (s : redis.State)
      → ((k : String) → EndsBy limit (redis.entry k s))
      → All (λ c. c.at + c.window_sec * 1000 ≤ limit) checks
      → EndsBy limit (redis.entry j (run_checks redis checks s))
  unfolding run_checks
  run_checks-EndsBy j limit [] s p q = p j
  run_checks-EndsBy j limit (c ∷ cs) s p q =
      run_checks-EndsBy j limit cs
        (rate_limit_exceeded redis c.key c.window_sec c.max_calls c.at s).1
        (λ k. check-EndsBy c.key k c.window_sec c.max_calls c.at limit s (p c.key) (p k) q.0) q.1
