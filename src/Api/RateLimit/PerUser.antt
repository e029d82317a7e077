-- ===== src/Api/RateLimit/PerUser.antt =====
-- The budget of one user for sending messages.
use Prim.Native.String.{◌∷◌}
use messaging_system.Common.{
  ◌≡◌, refl, ◌∙◌, ℕ, suc, ◌+◌, ◌-◌, ◌*◌, ◌≤◌, ◌<◌, String, Bool, true, false, Option, none, some,
  List, [], ◌∷◌, arith, eq_iff, eq_refl, ◌&&◌, ◌==◌, All, Bool-cases, inl, inr,
}
use messaging_system.Api.RateLimit.{
  rate_limit_exceeded, is_message_send_rate_limited, Caller, SendCall, SendLimits, admitted_sends,
  same_kind,
}
use messaging_system.Api.RateLimit.Keys.{heads_apart, append-eq}
use messaging_system.Api.RateLimit.Redis.{Counters, live, IsLawful}
use messaging_system.Api.RateLimit.Sends.{
  key_of, is_limited-IsCounted, is_limited-entry, is_limited-passes,
}
use messaging_system.Api.RateLimit.Window.{bumped, IsCounted, check_lem}

abbrev segment_of : Bool → String
segment_of true = "guest-user:"
segment_of false = "user:"

abbrev pub send_key : Bool → String → String
send_key guest u = key_of "ratelimit:message-send:" (segment_of guest) u

-- The cap of a user on sends in a window.
abbrev pub send_cap : SendLimits → Bool → ℕ
send_cap limits true = limits.guest_max_per_user
send_cap limits false = limits.limits.max_per_user

-- The check of the user, which comes first.
abbrev first_check :
    (redis : Counters) → SendLimits → Bool → Caller → ℕ → redis.State → Bool × redis.State
first_check redis limits h caller now s =
    rate_limit_exceeded redis (send_key h caller.user_id) limits.limits.window_sec
      (send_cap limits h) now s

ip_apart :
    (guest : Bool) (u id : String)
    → (key_of "ratelimit:message-send:" "ip:" id == send_key guest u) ≡ false
ip_apart true u id =
    heads_apart "ratelimit:message-send:" "i" "g" "p:" "uest-user:" id u (λ e. omega arith)
ip_apart false u id =
    heads_apart "ratelimit:message-send:" "i" "u" "p:" "ser:" id u (λ e. omega arith)

socket_apart :
    (guest : Bool) (u id : String)
    → (key_of "ratelimit:message-send:" "socket:" id == send_key guest u) ≡ false
socket_apart true u id =
    heads_apart "ratelimit:message-send:" "s" "g" "ocket:" "uest-user:" id u (λ e. omega arith)
socket_apart false u id =
    heads_apart "ratelimit:message-send:" "s" "u" "ocket:" "ser:" id u (λ e. omega arith)

send_key-eq :
    (g h : Bool) (v u : String) → (send_key h v == send_key g u) ≡ (v == u && same_kind g h)
send_key-eq true true v u = ground (arith, append-eq "ratelimit:message-send:" "guest-user:" v u)
send_key-eq true false v u = ground (
  arith,
  heads_apart "ratelimit:message-send:" "u" "g" "ser:" "uest-user:" v u (λ e. omega arith),
)
send_key-eq false true v u = ground (
  arith,
  heads_apart "ratelimit:message-send:" "g" "u" "uest-user:" "ser:" v u (λ e. omega arith),
)
send_key-eq false false v u = ground (arith, append-eq "ratelimit:message-send:" "user:" v u)

send_cap_same :
    (limits : SendLimits) (g h : Bool)
    → same_kind g h ≡ true
    → send_cap limits h ≡ send_cap limits g
send_cap_same limits true true e = refl
send_cap_same limits true false e = cc
send_cap_same limits false true e = cc
send_cap_same limits false false e = refl

own_key : (g : Bool) (u : String) → (u == u && same_kind g g) ≡ true
own_key true u = ground (arith, eq_refl u)
own_key false u = ground (arith, eq_refl u)

module _ (redis : Counters) (lawful : IsLawful redis) where
  send-entry :
      (limits : SendLimits) (guest h : Bool) (u : String) (caller : Caller) (now : ℕ)
      (s : redis.State)
      → ((j : String) → IsCounted (redis.entry j s))
      → redis.entry (send_key guest u) (is_message_send_rate_limited redis limits h caller now s).1
        ≡ redis.entry (send_key guest u) (first_check redis limits h caller now s).1
  unfolding is_message_send_rate_limited
  send-entry limits guest true u caller now s p =
      is_limited-entry redis lawful "ratelimit:message-send:" "guest-user:" (send_key guest u)
        (record limits.limits { max_per_user = limits.guest_max_per_user }) caller now s p
        (ip_apart guest u) (socket_apart guest u)
  send-entry limits guest false u caller now s p =
      is_limited-entry redis lawful "ratelimit:message-send:" "user:" (send_key guest u)
        limits.limits caller now s p (ip_apart guest u) (socket_apart guest u)

  send-passes :
      (limits : SendLimits) (h : Bool) (caller : Caller) (now : ℕ) (s : redis.State)
      → (is_message_send_rate_limited redis limits h caller now s).0 ≡ false
      → (first_check redis limits h caller now s).0 ≡ false
  unfolding is_message_send_rate_limited
  send-passes limits true caller now s e =
      is_limited-passes redis lawful "ratelimit:message-send:" "guest-user:"
        (record limits.limits { max_per_user = limits.guest_max_per_user }) caller now s e
  send-passes limits false caller now s e =
      is_limited-passes redis lawful "ratelimit:message-send:" "user:" limits.limits caller now s e

  send-IsCounted :
      (limits : SendLimits) (h : Bool) (caller : Caller) (now : ℕ) (s : redis.State)
      → ((j : String) → IsCounted (redis.entry j s))
      → (j : String)
      → IsCounted (redis.entry j (is_message_send_rate_limited redis limits h caller now s).1)
  unfolding is_message_send_rate_limited
  send-IsCounted limits true caller now s p =
      is_limited-IsCounted redis lawful "ratelimit:message-send:" "guest-user:"
        (record limits.limits { max_per_user = limits.guest_max_per_user }) caller now s p
  send-IsCounted limits false caller now s p =
      is_limited-IsCounted redis lawful "ratelimit:message-send:" "user:" limits.limits caller now s
        p

  -- A send of the user counts in the user's window, and passes within the cap alone.
  own_send :
      (limits : SendLimits) (guest : Bool) (u : String) (c : SendCall) (s : redis.State)
      → ((j : String) → IsCounted (redis.entry j s))
      → (c.caller.user_id == u && same_kind guest c.is_guest) ≡ true
      → (redis.entry
            (send_key guest u)
            (is_message_send_rate_limited redis limits c.is_guest c.caller c.at s).1
          ≡ some
              (bumped limits.limits.window_sec c.at (live c.at (redis.entry (send_key guest u) s))))
        × ((is_message_send_rate_limited redis limits c.is_guest c.caller c.at s).0 ≡ false
            → (bumped limits.limits.window_sec c.at
                (live c.at (redis.entry (send_key guest u) s))).value
              ≤ send_cap limits guest)
  own_send limits guest u c s p f =
      let k = send_key c.is_guest c.caller.user_id in
      let same = send_key-eq guest c.is_guest c.caller.user_id u in
      let checked =
        check_lem redis lawful k (send_key guest u) limits.limits.window_sec
          (send_cap limits c.is_guest) c.at s (p k) in
      (
        ground (
          arith,
          send-entry limits guest c.is_guest u c.caller c.at s p,
          checked,
          same,
          eq_iff k (send_key guest u),
        ),
        λ e. ground (
          arith,
          send-passes limits c.is_guest c.caller c.at s e,
          checked,
          same,
          eq_iff k (send_key guest u),
          send_cap_same limits guest c.is_guest,
        ),
      )

  other_send :
      (limits : SendLimits) (guest : Bool) (u : String) (c : SendCall) (s : redis.State)
      → ((j : String) → IsCounted (redis.entry j s))
      → (c.caller.user_id == u && same_kind guest c.is_guest) ≡ false
      → redis.entry
          (send_key guest u)
          (is_message_send_rate_limited redis limits c.is_guest c.caller c.at s).1
        ≡ redis.entry (send_key guest u) s
  other_send limits guest u c s p f =
      let k = send_key c.is_guest c.caller.user_id in
      ground (
        arith,
        send-entry limits guest c.is_guest u c.caller c.at s p,
        check_lem redis lawful k (send_key guest u) limits.limits.window_sec
            (send_cap limits c.is_guest) c.at s (p k),
        send_key-eq guest c.is_guest c.caller.user_id u,
      )

  -- The budget that is left of an open window bounds the sends that pass.
  admitted_sends_rest :
      (limits : SendLimits) (guest : Bool) (u : String) (n end : ℕ) (calls : List SendCall)
      (s : redis.State)
      → ((j : String) → IsCounted (redis.entry j s))
      → redis.entry (send_key guest u) s ≡ some (record { value = n; expires_at = some end })
      → All (λ c. c.at < end) calls
      → admitted_sends redis limits guest u calls s ≤ send_cap limits guest - n
  unfolding admitted_sends
  admitted_sends_rest limits guest u n end [] s p e q = omega arith
  admitted_sends_rest limits guest u n end (c ∷ cs) s p e q =
      elim (Bool-cases (c.caller.user_id == u && same_kind guest c.is_guest)) [
        | inl f ↦
            let own = own_send limits guest u c s p f in
            let after = (is_message_send_rate_limited redis limits c.is_guest c.caller c.at s).1 in
            ground (
              arith,
              own.0,
              own.1,
              admitted_sends_rest limits guest u (suc n) end cs after
                  (send-IsCounted limits c.is_guest c.caller c.at s p)
                  (ground (arith, own.0, e, q.0)) q.1,
            )
        | inr f ↦
            let after = (is_message_send_rate_limited redis limits c.is_guest c.caller c.at s).1 in
            ground (
              arith,
              admitted_sends_rest limits guest u n end cs after
                  (send-IsCounted limits c.is_guest c.caller c.at s p)
                  (other_send limits guest u c s p f ∙ e) q.1,
            )
      ]

  -- In the window that a send of a user opens, no more sends of the user pass than the user's cap
  -- (the guests' cap for a guest), whatever the addresses and sockets, and whatever other users send.
  pub admitted_sends_bound :
      (limits : SendLimits) (guest : Bool) (u ip : String) (socket_id : Option String) (t : ℕ)
      (calls : List SendCall) (s : redis.State)
      → ((j : String) → IsCounted (redis.entry j s))
      → live t (redis.entry (send_key guest u) s) ≡ none
      → All (λ c. c.at < t + limits.limits.window_sec * 1000) calls
      → admitted_sends redis limits guest u
          (record {
            is_guest = guest;
            caller = record { user_id = u; ip = ip; socket_id = socket_id };
            at = t;
          }
            ∷ calls)
          s
        ≤ send_cap limits guest
  unfolding admitted_sends
  admitted_sends_bound limits guest u ip socket_id t calls s p e q =
      let first : SendCall = record {
        is_guest = guest;
        caller = record { user_id = u; ip = ip; socket_id = socket_id };
        at = t;
      } in
      let own = own_send limits guest u first s p (own_key guest u) in
      let after = (is_message_send_rate_limited redis limits guest first.caller t s).1 in
      ground (
        arith,
        own.0,
        own.1,
        admitted_sends_rest limits guest u 1 (t + limits.limits.window_sec * 1000) calls after
            (send-IsCounted limits guest first.caller t s p) (ground (arith, own.0, e)) q,
      )
