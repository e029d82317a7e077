-- ===== src/Web/Call/Tests.antt =====
-- Concrete calls, and the theorems on them at concrete inputs.
use messaging_system.Common.{◌≡◌, refl, none, some, List, [], ◌∷◌, ◌⊎◌}
use messaging_system.Web.Call.{
  incoming_ring, outgoing_ring, active, remote, CallState, CallAction, start_outgoing,
  incoming_ringing, answer_call, peer_answered_outgoing, hangup_call, toggle_call_mic,
  call_initial_state, call_reducer, format_peer_call_end_label, clear_session,
}
use messaging_system.Web.Call.Laws.{run_calls, IsCall, run_calls-IsCall, active_needs_answer}

abbrev remote_end : List CallAction
remote_end =
    incoming_ringing "k" "u" "sdp" (some " Ann ") none
    ∷ answer_call
    ∷ toggle_call_mic
    ∷ hangup_call (some remote)
    ∷ []

remote_end_toast :
    (run_calls remote_end call_initial_state).last_remote_ended_peer_label ≡ some "Ann"
unfolding run_calls call_reducer clear_session format_peer_call_end_label
    messaging_system.Common.trim
remote_end_toast = refl

long_id_label : format_peer_call_end_label "0123456789abcdef" none (some " ") ≡ "User 01234567…"
unfolding format_peer_call_end_label messaging_system.Common.trim
long_id_label = refl

run_calls-IsCall_example : IsCall (run_calls remote_end call_initial_state)
run_calls-IsCall_example = run_calls-IsCall remote_end

abbrev ringing : CallState
ringing = call_reducer (start_outgoing "k" "u" none none) call_initial_state

ringing_answered : (call_reducer peer_answered_outgoing ringing).phase ≡ active
unfolding call_reducer
ringing_answered = refl

active_needs_answer_example :
    (ringing.phase ≡ active)
    ⊎ (((peer_answered_outgoing ≡ answer_call) × (ringing.phase ≡ incoming_ring))
        ⊎ ((peer_answered_outgoing ≡ peer_answered_outgoing) × (ringing.phase ≡ outgoing_ring)))
active_needs_answer_example = active_needs_answer peer_answered_outgoing ringing ringing_answered
