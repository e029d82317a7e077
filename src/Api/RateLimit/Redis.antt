-- ===== src/Api/RateLimit/Redis.antt =====
-- What the rate limits rely on of Redis: `INCR` and `EXPIRE` on counters.
use messaging_system.Common.{
  ◌≡◌, ℕ, suc, ◌+◌, ◌*◌, String, Option, none, some, leb, if◌then◌else◌, ◌==◌,
}

pub record Counter : Type 0 where
  pub value : ℕ
  pub expires_at : Option ℕ

-- `entry` is what a key holds, also when it has expired and Redis has not dropped it yet.
pub record Counters : Type 1 where
  pub State : Type 0
  pub incr : String → ℕ → State → ℕ × State
  pub expire : String → ℕ → ℕ → State → State
  pub entry : String → State → Option Counter

-- The counter at a time, if it has not expired.
abbrev pub live : ℕ → Option Counter → Option Counter
live now none = none
live now (some c) = elim c.expires_at [
  | none ↦ some c
  | some t ↦ if leb t now then none else some c
]

-- The counter behind an increment; a new one does not expire.
abbrev pub next : Option Counter → Counter
next none = record { value = 1; expires_at = none }
next (some c) = record c { value = suc c.value }

pub record IsLawful (redis : Counters) : Type 0 where
  pub incr-value :
      (k : String) (now : ℕ) (s : redis.State)
      → (redis.incr k now s).0 ≡ (next (live now (redis.entry k s))).value
  pub incr-entry :
      (k j : String) (now : ℕ) (s : redis.State)
      → redis.entry j (redis.incr k now s).1
        ≡ (if k == j then some (next (live now (redis.entry k s))) else redis.entry j s)
  pub expire-entry :
      (k j : String) (seconds now : ℕ) (s : redis.State) (c : Counter)
      → live now (redis.entry k s) ≡ some c
      → redis.entry j (redis.expire k seconds now s) ≡ (
          if k == j
          then some (record c { expires_at = some (now + seconds * 1000) })
          else redis.entry j s)
