-- ===== src/Web/Call/Laws.antt =====
-- What holds of the call slice.
use messaging_system.Common.{
  ◌≡◌, Bool, true, false, Option, none, some, List, [], ◌∷◌, ◌⊎◌, arith, is_some,
}
use messaging_system.Web.Call.{
  CallPhase, idle, incoming_ring, outgoing_ring, active, CallSessionEndReason, remote, CallState,
  CallAction, answer_call, peer_answered_outgoing, call_initial_state, call_reducer,
}

abbrev pub is_idle : CallPhase → Bool
is_idle idle = true
is_idle _ = false

abbrev pub is_toast : Option CallSessionEndReason → Bool
is_toast (some remote) = true
is_toast _ = false

-- What holds of the slice between two actions.
pub record IsCall (s : CallState) : Type 0 where
  pub ids : is_some s.call_id ≡ is_some s.peer_user_id
  pub labelled : is_some s.call_id ≡ is_some s.peer_resolved_label
  pub in_session : (is_idle s.phase ≡ true) → is_some s.call_id ≡ false
  pub out_session : (is_idle s.phase ≡ false) → is_some s.call_id ≡ true
  pub quiet :
      (is_idle s.phase ≡ true)
      → (s.mic_muted ≡ false) × (s.camera_off ≡ false) × (s.pending_remote_sdp ≡ none)
  pub outgoing_sdp : s.phase ≡ outgoing_ring → s.pending_remote_sdp ≡ none
  pub incoming_sdp : s.phase ≡ incoming_ring → is_some s.pending_remote_sdp ≡ true
  pub ended_idle : is_some s.last_session_end_reason ≡ true → is_idle s.phase ≡ true
  pub toast :
      is_some s.last_remote_ended_peer_label ≡ true → is_toast s.last_session_end_reason ≡ true

call_reducer-IsCall : (a : CallAction) (s : CallState) → IsCall s → IsCall (call_reducer a s)
unfolding call_reducer
call_reducer-IsCall answer_call s h = ground arith
call_reducer-IsCall _ s h = ground arith

unfoldable pub run_calls : List CallAction → CallState → CallState
run_calls [] s = s
run_calls (a ∷ acts) s = run_calls acts (call_reducer a s)

run_calls_from-IsCall :
    (acts : List CallAction) (s : CallState) → IsCall s → IsCall (run_calls acts s)
unfolding run_calls
run_calls_from-IsCall [] s h = h
run_calls_from-IsCall (a ∷ acts) s h =
    run_calls_from-IsCall acts (call_reducer a s) (call_reducer-IsCall a s h)

-- After any actions, a session has a call id, a peer and a label exactly when the phase is not
-- idle; an idle slice has no pending offer and neither microphone nor camera switched off; a
-- ringing incoming call has its offer; and an end reason, or the toast of a remote end, is there
-- only while idle, the toast only for a remote end.
pub run_calls-IsCall : (acts : List CallAction) → IsCall (run_calls acts call_initial_state)
run_calls-IsCall acts = run_calls_from-IsCall acts call_initial_state (ground arith)

-- A call becomes active only by answering an incoming ring or by the peer answering an outgoing
-- one.
pub active_needs_answer :
    (a : CallAction) (s : CallState)
    → (call_reducer a s).phase ≡ active
    → (s.phase ≡ active)
      ⊎ (((a ≡ answer_call) × (s.phase ≡ incoming_ring))
          ⊎ ((a ≡ peer_answered_outgoing) × (s.phase ≡ outgoing_ring)))
unfolding call_reducer
active_needs_answer answer_call s h = ground arith
active_needs_answer _ s h = ground arith
