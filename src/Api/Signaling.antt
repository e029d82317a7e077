-- ===== src/Api/Signaling.antt =====
-- Signals of calls: under apps/messaging-service/src, utils/realtime/webrtcSocketHandlers.ts,
-- data/calls/webrtcSignalingAuthz.ts and `buildCallIncomingKindNotificationPayload` of
-- data/notifications/callIncomingNotification.ts. The summary of what a schema refuses is a
-- parameter, and so are the counters of Redis.
pub mod Schemas
pub mod Laws
mod Tests
use Prim.Native.String
use messaging_system.Common.{
  ℕ, String, Bool, true, false, Option, none, some, List, [], ◌∷◌, ◌++◌, trim, trim_or_empty,
  is_empty, ◌||◌, if◌then◌else◌, ◌==◌, ◌>>=◌,
}
use messaging_system.Api.Documents.{UserDocument}
use messaging_system.Api.Mongo.{Database, World, Published, CallIncomingPayload, call_incoming}
use messaging_system.Api.RateLimit.{Limits, is_web_rtc_signal_rate_limited}
use messaging_system.Api.RateLimit.Redis.{Counters}
use messaging_system.Api.Receipts.{publish_message}
use messaging_system.Api.Send.{find_user_by_id}
use messaging_system.Api.Send.Request.{assert_guest_guest_direct_messaging_allowed}
use messaging_system.Api.Service.{Outcome, ok, failed, Failure, app_error, plain_error}
use messaging_system.Api.Signaling.Schemas.{
  RawSignal, SignalBase, IceCandidate, parse_base, parse_description, parse_ice_candidate,
  infer_media_is_video,
}

-- `socket.data.authAtConnect`
pub data SocketAuthResult : Type 0 where
  authenticated : UserDocument → SocketAuthResult
  unauthenticated email_not_verified : SocketAuthResult

pub data Ack : Type 0 where
  acked : Ack
  refused : String → String → Ack

pub data SignalName : Type 0 where
  webrtc_offer webrtc_answer webrtc_candidate webrtc_hangup : SignalName

-- What the peer is sent besides the ids.
pub data SignalBody : Type 0 where
  offer : String → Option String → Option String → SignalBody
  answer : String → SignalBody
  candidate : IceCandidate → SignalBody
  hangup : SignalBody

pub record Emitted : Type 0 where
  pub room : String
  pub from_user_id : String
  pub call_id : String
  pub conversation_id : Option String
  pub body : SignalBody

-- The connection: its id, address and authentication, the limits and whether a secret is configured.
pub record Connection : Type 0 where
  pub socket_id : String
  pub ip : String
  pub auth : SocketAuthResult
  pub limits : Limits
  pub jwt_secret : Option String

-- The text without white space around it, unless nothing is left.
abbrev pub named : Option String → Option String
named none = none
named (some s) = if is_empty (trim s) then none else some (trim s)

abbrev pub refusal : Failure → Ack
refusal (app_error code status message) = refused code message
refusal (plain_error message) = refused "INTERNAL_ERROR" "Internal server error"

abbrev pub emitted_of : String → SignalBase → SignalBody → Emitted
emitted_of from base body = record {
  room = String.◌++◌ "user:" base.to_user_id;
  from_user_id = from;
  call_id = base.call_id;
  conversation_id = base.conversation_id;
  body = body;
}

unfoldable pub build_call_incoming_payload :
    SignalBase → String → String → Option String → CallIncomingPayload
build_call_incoming_payload base caller sdp display_name = record {
  is_video = infer_media_is_video sdp;
  call_id = base.call_id;
  caller_user_id = caller;
  caller_display_name = display_name;
  conversation_id = base.conversation_id;
}

-- The names of the caller, from the stored user.
abbrev pub caller_display_name : Option UserDocument → Option String
caller_display_name none = none
caller_display_name (some user) = named user.display_name

abbrev pub caller_username : Option UserDocument → Option String
caller_username none = none
caller_username (some user) = named user.username

module _ (redis : Counters) (db : Database) (describe : SignalName → RawSignal → String) where
  pub record SignalState : Type 0 where
    pub counters : redis.State
    pub world : World db
    pub emitted : List Emitted

  unfoldable pub assert_web_rtc_signaling_peer_allowed :
      String → String → World db → Outcome {0} Unit
  assert_web_rtc_signaling_peer_allowed from_user_id to_user_id w =
      let from = trim from_user_id in
      let to = trim to_user_id in
      if is_empty from || is_empty to
      then failed (app_error "INVALID_REQUEST" 400 "fromUserId and toUserId required")
      else if from == to
      then failed (app_error "INVALID_REQUEST" 400 "Cannot signal yourself")
      else elim (find_user_by_id db from w) [
        | none ↦ failed (app_error "NOT_FOUND" 404 "User not found")
        | some sender ↦ elim (find_user_by_id db to w) [
          | none ↦ failed (app_error "NOT_FOUND" 404 "Peer not found")
          | some peer ↦ assert_guest_guest_direct_messaging_allowed sender peer
        ]
      ]

  abbrev pub emit : Emitted → SignalState → SignalState
  emit e s = record s { emitted = s.emitted ++ e ∷ [] }

  -- A broker that cannot be reached is logged, and the offer goes on.
  unfoldable pub relay_offer : UserDocument → SignalBase → String → SignalState → SignalState
  relay_offer user base sdp s =
      let caller = find_user_by_id db user.id s.world in
      let name = caller_display_name caller in
      let t = emit (emitted_of user.id base (offer sdp name (caller_username caller))) s in
      let published =
        publish_message db
          (record {
            routing_key = String.◌++◌ "message.call.user." base.to_user_id;
            payload = call_incoming (build_call_incoming_payload base user.id sdp name);
            skip_socket_id = none;
          })
          t.world in
      record t { world = published.1 }

  -- The relay of a parsed signal: to whom, and what it does.
  abbrev pub Relay : Type 0
  Relay = SignalBase × (SignalState → SignalState)

  unfoldable pub parse_relay : SignalName → RawSignal → UserDocument → Option Relay
  unfolding relay_offer
  parse_relay webrtc_offer raw user =
      parse_description raw >>= λ p. some (p.0, relay_offer user p.0 p.1)
  parse_relay webrtc_answer raw user =
      parse_description raw >>= λ p. some (p.0, emit (emitted_of user.id p.0 (answer p.1)))
  parse_relay webrtc_candidate raw user =
      parse_ice_candidate raw >>= λ p. some (p.0, emit (emitted_of user.id p.0 (candidate p.1)))
  parse_relay webrtc_hangup raw user =
      parse_base raw >>= λ base. some (base, emit (emitted_of user.id base hangup))

  -- Behind the limits: the schema, the authorization, the relay and the acknowledgement.
  unfoldable pub relay_signal :
      SignalName → RawSignal → UserDocument → SignalState → Ack × SignalState
  unfolding parse_relay
  relay_signal name raw user s = elim (parse_relay name raw user) [
    | none ↦ (refused "INVALID_REQUEST" (describe name raw), s)
    | some relay ↦ elim (assert_web_rtc_signaling_peer_allowed user.id relay.0.to_user_id s.world) [
      | failed e ↦ (refusal e, s)
      | ok _ ↦ (acked, relay.1 s)
    ]
  ]

  unfoldable pub limited_signal :
      SignalName → RawSignal → Connection → UserDocument → ℕ → SignalState → Ack × SignalState
  unfolding relay_signal
  limited_signal name raw connection user now s =
      let (limited, counters) =
        is_web_rtc_signal_rate_limited redis connection.limits
          (record { user_id = user.id; ip = connection.ip; socket_id = some connection.socket_id })
          now s.counters in
      let t = record s { counters = counters } in
      if limited
      then (refused "RATE_LIMIT_EXCEEDED" "Too many WebRTC signaling messages; try again later", t)
      else relay_signal name raw user t

  unfoldable pub on_signal :
      SignalName → RawSignal → Connection → ℕ → SignalState → Ack × SignalState
  unfolding limited_signal
  on_signal name raw connection now s = elim connection.auth [
    | email_not_verified ↦
        (refused "EMAIL_NOT_VERIFIED" "Verify your email before using this resource", s)
    | unauthenticated ↦ (
      refused "UNAUTHORIZED" (
          if is_empty (trim_or_empty connection.jwt_secret)
          then "Authentication required"
          else "Missing or invalid bearer token"),
      s,
    )
    | authenticated user ↦ limited_signal name raw connection user now s
  ]

  -- Without a callback the signal is dropped, and there is no answer.
  unfoldable pub handle_signal :
      Bool → SignalName → RawSignal → Connection → ℕ → SignalState → Option Ack × SignalState
  handle_signal false name raw connection now s = (none, s)
  handle_signal true name raw connection now s =
      let (ack, t) = on_signal name raw connection now s in (some ack, t)
