-- ===== src/Web/Call.antt =====
-- The call slice, apps/web-client/src/modules/home/stores/callSlice.ts, and the label of a peer,
-- apps/web-client/src/modules/home/utils/peerCallEndLabel.ts. The call id that `prepare` draws from
-- `crypto.randomUUID` is an argument. Lengths count code points.
pub mod Laws
mod Tests
use Prim.Native.String
use messaging_system.Common.{
  ℕ, zero, suc, String, Bool, true, false, Option, none, some, not, ltb, trim, trim_or_empty,
  is_empty, is_truthy, get_or, if◌then◌else◌,
}

pub data CallPhase : Type 0 where
  idle incoming_ring outgoing_ring active : CallPhase

pub data CallSessionEndReason : Type 0 where
  local remote system : CallSessionEndReason

pub record CallState : Type 0 where
  pub phase : CallPhase
  pub call_id : Option String
  pub peer_user_id : Option String
  pub pending_remote_sdp : Option String
  pub mic_muted : Bool
  pub camera_off : Bool
  pub error_message : Option String
  pub last_session_end_reason : Option CallSessionEndReason
  pub peer_resolved_label : Option String
  pub last_remote_ended_peer_label : Option String

abbrev pub call_initial_state : CallState
call_initial_state = record {
  phase = idle;
  call_id = none;
  peer_user_id = none;
  pending_remote_sdp = none;
  mic_muted = false;
  camera_off = false;
  error_message = none;
  last_session_end_reason = none;
  peer_resolved_label = none;
  last_remote_ended_peer_label = none;
}

-- `s.slice(0, n)`
slice_start : ℕ → String → String
slice_start zero s = ""
slice_start (suc n) String.[] = ""
slice_start (suc n) (String.◌∷◌ c s) = String.◌∷◌ c (slice_start n s)

-- `s.length`
text_length : String → ℕ
text_length String.[] = 0
text_length (String.◌∷◌ c s) = suc (text_length s)

unfoldable pub format_peer_call_end_label : String → Option String → Option String → String
unfolding slice_start text_length
format_peer_call_end_label user_id display_name username =
    let dn = trim_or_empty display_name in
    let un = trim_or_empty username in
    let id = trim user_id in
    if not (is_empty dn)
    then dn
    else if not (is_empty un)
    then un
    else if is_empty id
    then "The other participant"
    else if ltb 12 (text_length id)
    then String.◌++◌ "User " (String.◌++◌ (slice_start 8 id) "…")
    else String.◌++◌ "User " id

-- `resolved || (pid ? formatPeerCallEndLabel({ userId: pid }) : '')`
abbrev pub end_label : Option String → Option String → String
end_label resolved pid =
    if not (is_empty (trim_or_empty resolved))
    then trim_or_empty resolved
    else if is_truthy pid
    then format_peer_call_end_label (get_or pid "") none none
    else ""

abbrev pub is_remote : CallSessionEndReason → Bool
is_remote remote = true
is_remote _ = false

unfoldable pub clear_session : CallSessionEndReason → CallState → CallState
clear_session end_reason state =
    let label = end_label state.peer_resolved_label state.peer_user_id in
    record {
      phase = idle;
      call_id = none;
      peer_user_id = none;
      pending_remote_sdp = none;
      mic_muted = false;
      camera_off = false;
      error_message = none;
      peer_resolved_label = none;
      last_session_end_reason = some end_reason;
      last_remote_ended_peer_label =
          if is_remote end_reason then if is_empty label then none else some label else none;
    }

abbrev reset_session_start : CallState → CallState
reset_session_start state = record state {
  last_session_end_reason = none;
  last_remote_ended_peer_label = none;
}

-- `prepare` of `startOutgoingCall`: the peer, trimmed, and its label.
abbrev pub prepare_outgoing : String → Option String → Option String → String × String
prepare_outgoing user_id display_name username =
    (trim user_id, format_peer_call_end_label (trim user_id) display_name username)

unfoldable pub start_outgoing_call :
    String → String → Option String → Option String → CallState → CallState
start_outgoing_call call_id user_id display_name username state =
    let (peer, label) = prepare_outgoing user_id display_name username in
    record (reset_session_start state) {
      phase = outgoing_ring;
      call_id = some call_id;
      peer_user_id = some peer;
      peer_resolved_label = some label;
      mic_muted = false;
      camera_off = false;
      pending_remote_sdp = none;
      error_message = none;
    }

unfoldable pub incoming_call_ringing :
    String → String → String → Option String → Option String → CallState → CallState
incoming_call_ringing call_id peer_user_id remote_sdp display_name username state =
    record (reset_session_start state) {
      phase = incoming_ring;
      call_id = some call_id;
      peer_user_id = some peer_user_id;
      pending_remote_sdp = some remote_sdp;
      peer_resolved_label = some (format_peer_call_end_label peer_user_id display_name username);
      mic_muted = false;
      camera_off = false;
      error_message = none;
    }

-- The reducers that test the phase, by its value.
answer_at : CallPhase → CallState → CallState
answer_at incoming_ring state = record state { phase = active }
answer_at _ state = state

peer_answered_at : CallPhase → CallState → CallState
peer_answered_at outgoing_ring state = record state { phase = active }
peer_answered_at _ state = state

mic_at : CallPhase → CallState → CallState
mic_at active state = record state { mic_muted = not state.mic_muted }
mic_at _ state = state

video_at : CallPhase → CallState → CallState
video_at active state = record state { camera_off = not state.camera_off }
video_at _ state = state

pub data CallAction : Type 0 where
  start_outgoing : String → String → Option String → Option String → CallAction
  incoming_ringing : String → String → String → Option String → Option String → CallAction
  answer_call peer_answered_outgoing : CallAction
  set_call_error : Option String → CallAction
  reject_call : CallAction
  hangup_call : Option CallSessionEndReason → CallAction
  toggle_call_mic toggle_call_video clear_call_session_end_reason : CallAction

unfoldable pub call_reducer : CallAction → CallState → CallState
unfolding clear_session start_outgoing_call incoming_call_ringing answer_at peer_answered_at mic_at
    video_at
call_reducer (start_outgoing id user dn un) s = start_outgoing_call id user dn un s
call_reducer (incoming_ringing id user sdp dn un) s = incoming_call_ringing id user sdp dn un s
call_reducer answer_call s = answer_at s.phase s
call_reducer peer_answered_outgoing s = peer_answered_at s.phase s
call_reducer (set_call_error e) s = record s { error_message = e }
call_reducer reject_call s = clear_session local s
call_reducer (hangup_call reason) s = clear_session (get_or reason system) s
call_reducer toggle_call_mic s = mic_at s.phase s
call_reducer toggle_call_video s = video_at s.phase s
call_reducer clear_call_session_end_reason s = record s {
  last_session_end_reason = none;
  last_remote_ended_peer_label = none;
}
