-- ===== src/Api/Signaling/Tests.antt =====
-- A guest calls another, and the theorems at that call.
use messaging_system.Common.{
  ◌≡◌, refl, String, true, false, none, some, [], empty, put, trim, ◌>>=◌,
}
use messaging_system.Api.Mongo.Table.{table, user_of}
use messaging_system.Api.RateLimit.{
  is_web_rtc_signal_rate_limited, is_limited, rate_limit_exceeded, fixed_window_increment,
}
use messaging_system.Api.RateLimit.Memory.{memory}
use messaging_system.Api.Send.{find_user_by_id}
use messaging_system.Api.Send.Request.{assert_guest_guest_direct_messaging_allowed}
use messaging_system.Api.Signaling.{
  SignalName, webrtc_hangup, Connection, SignalState, authenticated, acked, refused, on_signal,
  assert_web_rtc_signaling_peer_allowed,
}
use messaging_system.Api.Signaling.Laws.{
  on_signal-refused, on_signal-acked, on_signal-broker, IsRelayed,
}
use messaging_system.Api.Signaling.Schemas.{
  RawSignal, text, absent, infer_media_is_video, parse_base,
}

abbrev describe : SignalName → RawSignal → String
describe name raw = "request: invalid"

abbrev hangup_to : String → RawSignal
hangup_to to = record {
  to_user_id = text to;
  call_id = text "call-0001";
  sdp = absent;
  conversation_id = absent;
  candidate = none;
}

abbrev connection : Connection
connection = record {
  socket_id = "s1";
  ip = "192.0.2.1";
  auth = authenticated (user_of "ann" true);
  limits = record { window_sec = 60; max_per_user = 9; max_per_ip = 9; max_per_socket = 9 };
  jwt_secret = some "secret";
}

abbrev idle : SignalState memory table describe
idle = record {
  counters = empty;
  world = record {
    messages = empty;
    conversations = empty;
    reads = λ _. none;
    users = put "ann" (user_of "ann" true) (put "bob" (user_of "bob" true) empty);
    connected = true;
    published = [];
  };
  emitted = [];
}

video_is_found : infer_media_is_video "v=0 M=Video 9" ≡ true
unfolding infer_media_is_video
video_is_found = refl

audio_is_found : infer_media_is_video "m=audio 9 m=videos" ≡ false
unfolding infer_media_is_video
audio_is_found = refl

hangup_is_acked :
    (on_signal memory table describe webrtc_hangup (hangup_to "bob") connection 5 idle).0 ≡ acked
unfolding on_signal is_web_rtc_signal_rate_limited is_limited rate_limit_exceeded
    fixed_window_increment parse_base assert_web_rtc_signaling_peer_allowed find_user_by_id
    assert_guest_guest_direct_messaging_allowed trim ◌>>=◌
hangup_is_acked = refl

on_signal-acked_example :
    IsRelayed memory table describe webrtc_hangup
      (hangup_to "bob")
      connection
      idle
      (on_signal memory table describe webrtc_hangup (hangup_to "bob") connection 5 idle).1
on_signal-acked_example =
    on_signal-acked memory table describe webrtc_hangup (hangup_to "bob") connection 5 idle
      hangup_is_acked

self_is_refused :
    (on_signal memory table describe webrtc_hangup (hangup_to " ann") connection 5 idle).0
    ≡ refused "INVALID_REQUEST" "Cannot signal yourself"
unfolding on_signal is_web_rtc_signal_rate_limited is_limited rate_limit_exceeded
    fixed_window_increment parse_base assert_web_rtc_signaling_peer_allowed trim ◌>>=◌
self_is_refused = refl

on_signal-refused_example :
    ((on_signal memory table describe webrtc_hangup (hangup_to " ann") connection 5 idle).1.emitted
      ≡ idle.emitted)
    × ((on_signal memory table describe webrtc_hangup (hangup_to " ann") connection 5 idle).1.world
        ≡ idle.world)
on_signal-refused_example =
    on_signal-refused memory table describe webrtc_hangup (hangup_to " ann") connection 5 idle
      "INVALID_REQUEST" "Cannot signal yourself" self_is_refused

on_signal-broker_example :
    (on_signal memory table describe webrtc_hangup
      (hangup_to "bob")
      connection
      5
      (record idle { world = record idle.world { connected = false } })).0
    ≡ (on_signal memory table describe webrtc_hangup (hangup_to "bob") connection 5 idle).0
on_signal-broker_example =
    on_signal-broker memory table describe webrtc_hangup (hangup_to "bob") connection 5 idle false
