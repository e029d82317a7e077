-- ===== src/Api/RateLimit/Memory.antt =====
-- Counters in memory: the interface of Redis at work.
use messaging_system.Common.{refl, ℕ, ◌+◌, ◌*◌, Option, none, some, Dict, put, if◌then◌else◌, ◌==◌}
use messaging_system.Api.RateLimit.Redis.{Counter, Counters, live, next, IsLawful}

-- `EXPIRE` on a key that holds nothing, or only an expired counter, does nothing.
abbrev pub expired_at : ℕ → Option Counter → Option Counter
expired_at end none = none
expired_at end (some c) = some (record c { expires_at = some end })

abbrev pub memory : Counters
memory = record {
  State = Dict Counter;
  incr = λ k now s. ((next (live now (s k))).value, put k (next (live now (s k))) s);
  expire = λ k seconds now s j.
      if k == j then expired_at (now + seconds * 1000) (live now (s k)) else s j;
  entry = λ k s. s k;
}

pub memory-IsLawful : IsLawful memory
memory-IsLawful = record {
  incr-value = λ k now s. refl;
  incr-entry = λ k j now s. refl;
  expire-entry = λ k j seconds now s c e. rw e refl;
}
