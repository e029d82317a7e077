-- ===== src/Api/RateLimit.antt =====
-- The fixed-window rate limits: under apps/messaging-service/src, utils/auth/rateLimitRedis.ts,
-- data/messages/messageSendRateLimit.ts, data/messages/messageReceiptRateLimit.ts and
-- data/calls/webrtcSignalRateLimit.ts. Redis is a parameter, with the behaviour that its commands
-- document as laws; the time of a call is an argument, in milliseconds. A call runs without others
-- in between, and Redis does not fail.
pub mod Redis
pub mod Window
pub mod Keys
pub mod Budget
pub mod Sends
pub mod PerUser
pub mod Memory
mod Tests
use Prim.Native.String
use messaging_system.Common.{
  ℕ, String, Bool, true, false, Option, none, some, ltb, nat_eq, if◌then◌else◌, List, [], ◌∷◌, not,
  ◌&&◌, ◌+◌, ◌==◌,
}
use messaging_system.Api.RateLimit.Redis.{Counters}

-- The limits of one kind of call, from the environment.
pub record Limits : Type 0 where
  pub window_sec : ℕ
  pub max_per_user : ℕ
  pub max_per_ip : ℕ
  pub max_per_socket : ℕ

pub record Caller : Type 0 where
  pub user_id : String
  pub ip : String
  pub socket_id : Option String

-- One call of `rateLimitExceeded`.
pub record Check : Type 0 where
  pub key : String
  pub window_sec : ℕ
  pub max_calls : ℕ
  pub at : ℕ

-- A call of `isMessageSendRateLimited`.
pub record SendCall : Type 0 where
  pub is_guest : Bool
  pub caller : Caller
  pub at : ℕ

-- `MESSAGE_SEND_…` of the environment, with the limit of guests.
pub record SendLimits : Type 0 where
  pub limits : Limits
  pub guest_max_per_user : ℕ

abbrev pub same_kind : Bool → Bool → Bool
same_kind true b = b
same_kind false b = not b

-- The checks of a key.
unfoldable pub count : String → List Check → ℕ
count k [] = 0
count k (c ∷ cs) = (if c.key == k then 1 else 0) + count k cs

module _ (redis : Counters) where
  unfoldable pub fixed_window_increment : String → ℕ → ℕ → redis.State → ℕ × redis.State
  fixed_window_increment key window_seconds now s =
      let (n, t) = redis.incr key now s in
      (n, if nat_eq n 1 then redis.expire key window_seconds now t else t)

  unfoldable pub rate_limit_exceeded : String → ℕ → ℕ → ℕ → redis.State → Bool × redis.State
  rate_limit_exceeded key window_seconds max now s =
      let (n, t) = fixed_window_increment key window_seconds now s in (ltb max n, t)

  -- `if (await first) return true;` and then what follows
  abbrev pub or_next : Bool × redis.State → (redis.State → Bool × redis.State) → Bool × redis.State
  or_next (true, s) k = (true, s)
  or_next (false, s) k = k s

  -- The socket's limit, where the call came over a socket.
  abbrev pub socket_limited : String → ℕ → ℕ → Option String → ℕ → redis.State → Bool × redis.State
  socket_limited kind window_sec max none now s = (false, s)
  socket_limited kind window_sec max (some socket_id) now s =
      rate_limit_exceeded (String.◌++◌ kind (String.◌++◌ "socket:" socket_id)) window_sec max now s

  -- The three checks in their order; the first that fails ends the call.
  unfoldable pub is_limited :
      String → String → Limits → Caller → ℕ → redis.State → Bool × redis.State
  is_limited kind user_segment limits caller now s =
      or_next
        (rate_limit_exceeded (String.◌++◌ kind (String.◌++◌ user_segment caller.user_id))
          limits.window_sec limits.max_per_user now s)
        λ s.
          or_next
            (rate_limit_exceeded (String.◌++◌ kind (String.◌++◌ "ip:" caller.ip)) limits.window_sec
              limits.max_per_ip now s)
            λ s. socket_limited kind limits.window_sec limits.max_per_socket caller.socket_id now s

  unfoldable pub is_message_receipt_rate_limited :
      Limits → Caller → ℕ → redis.State → Bool × redis.State
  is_message_receipt_rate_limited limits = is_limited "ratelimit:message-receipt:" "user:" limits

  unfoldable pub is_web_rtc_signal_rate_limited :
      Limits → Caller → ℕ → redis.State → Bool × redis.State
  is_web_rtc_signal_rate_limited limits = is_limited "ratelimit:webrtc-signal:" "user:" limits

  unfoldable pub is_message_send_rate_limited :
      SendLimits → Bool → Caller → ℕ → redis.State → Bool × redis.State
  is_message_send_rate_limited send_limits true =
      is_limited "ratelimit:message-send:" "guest-user:"
        (record send_limits.limits { max_per_user = send_limits.guest_max_per_user })
  is_message_send_rate_limited send_limits false =
      is_limited "ratelimit:message-send:" "user:" send_limits.limits

  -- The two caps of `POST /auth/guest`; the fingerprint's hash is a parameter.
  unfoldable pub is_guest_auth_rate_limited :
      (String → String) → Limits → ℕ → String → Option String → ℕ → redis.State → Bool × redis.State
  is_guest_auth_rate_limited segment limits max_per_fingerprint ip none now s =
      rate_limit_exceeded (String.◌++◌ "ratelimit:auth-guest:ip:" ip) limits.window_sec
        limits.max_per_ip now s
  is_guest_auth_rate_limited segment limits max_per_fingerprint ip (some raw) now s =
      or_next
        (rate_limit_exceeded (String.◌++◌ "ratelimit:auth-guest:ip:" ip) limits.window_sec
          limits.max_per_ip now s)
        λ s.
          rate_limit_exceeded (String.◌++◌ "ratelimit:auth-guest:fp:" (segment raw))
            limits.window_sec max_per_fingerprint now s

  unfoldable pub is_global_rest_rate_limit_exceeded :
      ℕ → ℕ → String → ℕ → redis.State → Bool × redis.State
  is_global_rest_rate_limit_exceeded window_sec max ip now s =
      rate_limit_exceeded (String.◌++◌ "ratelimit:global:ip:" ip) window_sec max now s

  unfoldable pub run_checks : List Check → redis.State → redis.State
  run_checks [] s = s
  run_checks (c ∷ cs) s =
      run_checks cs (rate_limit_exceeded c.key c.window_sec c.max_calls c.at s).1

  -- How many checks of a key pass.
  unfoldable pub admitted : String → List Check → redis.State → ℕ
  admitted k [] s = 0
  admitted k (c ∷ cs) s =
      let answer = rate_limit_exceeded c.key c.window_sec c.max_calls c.at s in
      (if c.key == k && not answer.0 then 1 else 0) + admitted k cs answer.1

  -- How many sends of a user pass, as a guest or not.
  unfoldable pub admitted_sends : SendLimits → Bool → String → List SendCall → redis.State → ℕ
  admitted_sends limits guest u [] s = 0
  admitted_sends limits guest u (c ∷ cs) s =
      let answer = is_message_send_rate_limited limits c.is_guest c.caller c.at s in
      (if c.caller.user_id == u && same_kind guest c.is_guest && not answer.0 then 1 else 0)
      + admitted_sends limits guest u cs answer.1
