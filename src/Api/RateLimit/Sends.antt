-- ===== src/Api/RateLimit/Sends.antt =====
-- The sends of one user: the checks of the address and of the socket do not touch the user's budget.
use Prim.Native.String
use Prim.Native.String.{◌∷◌}
use messaging_system.Common.{
  ◌≡◌, refl, ℕ, String, Bool, true, false, Option, none, some, arith, ◌==◌,
}
use messaging_system.Api.RateLimit.{
  rate_limit_exceeded, is_limited, or_next, socket_limited, Limits, Caller,
}
use messaging_system.Api.RateLimit.Redis.{Counters, IsLawful}
use messaging_system.Api.RateLimit.Window.{IsCounted, check_lem, check-IsCounted}

abbrev pub key_of : String → String → String → String
key_of kind segment id = String.◌++◌ kind (String.◌++◌ segment id)

module _ (redis : Counters) where
  -- What both checks of a pair keep.
  or_next-keeps :
      (P : redis.State → Type 0) (answer : Bool × redis.State)
      (k : redis.State → Bool × redis.State)
      → P answer.1
      → ((s : redis.State) → P s → P (k s).1)
      → P (or_next redis answer k).1
  or_next-keeps P (true, s) k p h = p
  or_next-keeps P (false, s) k p h = h s p

  or_next-passes :
      (answer : Bool × redis.State) (k : redis.State → Bool × redis.State)
      → (or_next redis answer k).0 ≡ false
      → answer.0 ≡ false
  or_next-passes (true, s) k e = e
  or_next-passes (false, s) k e = refl

module _ (redis : Counters) (lawful : IsLawful redis) where
  -- What a property of the counters needs to hold through a limiter: through one check.
  is_limited-keeps :
      (P : redis.State → Type 0) (kind segment : String) (limits : Limits) (caller : Caller)
      (now : ℕ) (s : redis.State)
      → P
          (rate_limit_exceeded redis
            (key_of kind segment caller.user_id)
            limits.window_sec
            limits.max_per_user
            now
            s).1
      → ((id : String) (max : ℕ) (u : redis.State)
          → P u
          → P (rate_limit_exceeded redis (key_of kind "ip:" id) limits.window_sec max now u).1)
      → ((id : String) (max : ℕ) (u : redis.State)
          → P u
          → P (rate_limit_exceeded redis (key_of kind "socket:" id) limits.window_sec max now u).1)
      → P (is_limited redis kind segment limits caller now s).1
  unfolding is_limited
  is_limited-keeps P kind segment limits caller now s p ip socket =
      or_next-keeps redis P
        (rate_limit_exceeded redis (key_of kind segment caller.user_id) limits.window_sec
          limits.max_per_user now s)
        (λ u.
          or_next redis
            (rate_limit_exceeded redis (key_of kind "ip:" caller.ip) limits.window_sec
              limits.max_per_ip now u)
            (λ v.
              socket_limited redis kind limits.window_sec limits.max_per_socket caller.socket_id now
                v))
        p
        (λ u h.
          or_next-keeps redis P
            (rate_limit_exceeded redis (key_of kind "ip:" caller.ip) limits.window_sec
              limits.max_per_ip now u)
            (λ v.
              socket_limited redis kind limits.window_sec limits.max_per_socket caller.socket_id now
                v)
            (ip caller.ip limits.max_per_ip u h) (λ v g. through caller.socket_id v g))
    where
      through :
          (id : Option String) (v : redis.State)
          → P v
          → P (socket_limited redis kind limits.window_sec limits.max_per_socket id now v).1
      through none v g = g
      through (some id) v g = socket id limits.max_per_socket v g

  pub is_limited-IsCounted :
      (kind segment : String) (limits : Limits) (caller : Caller) (now : ℕ) (s : redis.State)
      → ((j : String) → IsCounted (redis.entry j s))
      → (j : String)
      → IsCounted (redis.entry j (is_limited redis kind segment limits caller now s).1)
  is_limited-IsCounted kind segment limits caller now s p =
      is_limited-keeps (λ u. (j : String) → IsCounted (redis.entry j u)) kind segment limits caller
        now s
        (λ j.
          check-IsCounted redis lawful (key_of kind segment caller.user_id) j limits.window_sec
            limits.max_per_user now s (p (key_of kind segment caller.user_id)) (p j))
        (λ id max u q j.
          check-IsCounted redis lawful (key_of kind "ip:" id) j limits.window_sec max now u
            (q (key_of kind "ip:" id)) (q j))
        (λ id max u q j.
          check-IsCounted redis lawful (key_of kind "socket:" id) j limits.window_sec max now u
            (q (key_of kind "socket:" id)) (q j))

  -- A key that is none of an address or a socket changes by the first check alone.
  pub is_limited-entry :
      (kind segment k : String) (limits : Limits) (caller : Caller) (now : ℕ) (s : redis.State)
      → ((j : String) → IsCounted (redis.entry j s))
      → ((id : String) → (key_of kind "ip:" id == k) ≡ false)
      → ((id : String) → (key_of kind "socket:" id == k) ≡ false)
      → redis.entry k (is_limited redis kind segment limits caller now s).1
        ≡ redis.entry k
            (rate_limit_exceeded redis
              (key_of kind segment caller.user_id)
              limits.window_sec
              limits.max_per_user
              now
              s).1
  is_limited-entry kind segment k limits caller now s p ip socket =
      let user_key = key_of kind segment caller.user_id in
      let first = rate_limit_exceeded redis user_key limits.window_sec limits.max_per_user now s in
      (is_limited-keeps
        (λ u.
          ((j : String) → IsCounted (redis.entry j u)) × (redis.entry k u ≡ redis.entry k first.1))
        kind segment limits caller now s
        (
          (λ j.
              check-IsCounted redis lawful user_key j limits.window_sec limits.max_per_user now s
                (p user_key) (p j)),
          refl,
        )
        (λ id max u q. apart id "ip:" limits.window_sec max u now first.1 q (ip id))
        (λ id max u q. apart id "socket:" limits.window_sec max u now first.1 q (socket id))).1
    where
      apart :
          (id group : String) (w max : ℕ) (u : redis.State) (now : ℕ) (first : redis.State)
          → ((j : String) → IsCounted (redis.entry j u)) × (redis.entry k u ≡ redis.entry k first)
          → (key_of kind group id == k) ≡ false
          → ((j : String)
              → IsCounted
                  (redis.entry j (rate_limit_exceeded redis (key_of kind group id) w max now u).1))
            × (redis.entry k (rate_limit_exceeded redis (key_of kind group id) w max now u).1
                ≡ redis.entry k first)
      apart id group w max u now first q e = (
        (λ j.
            check-IsCounted redis lawful (key_of kind group id) j w max now u
              (q.0 (key_of kind group id)) (q.0 j)),
        ground (
          arith,
          q.1,
          check_lem redis lawful (key_of kind group id) k w max now u (q.0 (key_of kind group id)),
        ),
      )

  pub is_limited-passes :
      (kind segment : String) (limits : Limits) (caller : Caller) (now : ℕ) (s : redis.State)
      → (is_limited redis kind segment limits caller now s).0 ≡ false
      → (rate_limit_exceeded redis
          (key_of kind segment caller.user_id)
          limits.window_sec
          limits.max_per_user
          now
          s).0
        ≡ false
  unfolding is_limited
  is_limited-passes kind segment limits caller now s e =
      or_next-passes redis
        (rate_limit_exceeded redis (key_of kind segment caller.user_id) limits.window_sec
          limits.max_per_user now s)
        (λ u.
          or_next redis
            (rate_limit_exceeded redis (key_of kind "ip:" caller.ip) limits.window_sec
              limits.max_per_ip now u)
            (λ v.
              socket_limited redis kind limits.window_sec limits.max_per_socket caller.socket_id now
                v))
        e
