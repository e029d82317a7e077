-- ===== src/Web/Messaging/Laws/Runs.antt =====
-- Runs of the slice from its initial state.
use mathlib.Core.Path.{subst}
use messaging_system.Web.Messaging.Thread.{replace_optimistic_message}
use messaging_system.Common.{◌≡◌, refl, String, true, false, List, [], ◌∷◌, contains, starts_with}
use messaging_system.Web.Messaging.State.{MessagingState, initial_state}
use messaging_system.Web.Messaging.Session.{reset_messaging}
use messaging_system.Web.Messaging.Reducer.{
  Action, activate, pend_peer, hydrate, append_send, append_incoming, own_plaintext, acked,
  peer_decrypted, remove_optimistic, receipt_fanout, receipt_summaries, send_pending, send_error,
  plaintext_from_disk, scroll_to, clear_scroll, reset, logged_out, messaging_reducer,
}
use messaging_system.Web.Messaging.Laws.WellFormed.{
  is_free_for, pending, IsCoherent, append_message_from_send-IsCoherent,
  remove_optimistic_message-IsCoherent,
}
use messaging_system.Web.Messaging.Laws.Settling.{
  append_incoming_message_if_new-IsCoherent, replace_optimistic_message-IsCoherent,
}
use messaging_system.Web.Messaging.Laws.Frame.{
  SameThreads-IsCoherent, set_active_conversation_id-SameThreads,
  set_pending_direct_peer-SameThreads, record_own_send_plaintext-SameThreads,
  set_peer_decrypted_body-SameThreads, merge_receipt_fanout_from_socket-SameThreads,
  merge_receipt_summaries_from_fetch-SameThreads, set_send_pending-SameThreads,
  set_send_error-SameThreads, hydrate_sender_plaintext_from_disk-SameThreads,
  set_conversation_scroll_target-SameThreads, clear_conversation_scroll_target-SameThreads,
}
use messaging_system.Web.Messaging.Laws.Hydration.{IsPage, hydrate_messages_from_fetch-IsCoherent}

pub initial_state-IsCoherent : IsCoherent initial_state
unfolding contains
initial_state-IsCoherent = record {
  distinct = λ c. tt;
  listed = λ c id. refl;
  client = λ c id e. cc;
  fits = λ c id e. cc;
}

reset_messaging-IsCoherent : (s : MessagingState) → IsCoherent (reset_messaging s)
unfolding reset_messaging
reset_messaging-IsCoherent s = initial_state-IsCoherent

-- What the callers keep to: the rows of one conversation stay in it, a server id is no client id,
-- and a fresh optimistic id waits nowhere.
abbrev pub IsAdmissible : Action → MessagingState → Type 0
IsAdmissible (hydrate c ms user) s = IsPage c ms s
IsAdmissible (append_send c m) s =
    (m.conversation_id ≡ c)
    × (is_free_for c (s.messages_by_id m.id) ≡ true)
    × ((k : String) → contains m.id (pending s k) ≡ false)
IsAdmissible (append_incoming m user) s = starts_with m.id "client:" ≡ false
IsAdmissible (acked c o m) s =
    (m.conversation_id ≡ c)
    × (starts_with m.id "client:" ≡ false)
    × (is_free_for c (s.messages_by_id m.id) ≡ true)
    × (is_free_for c (s.messages_by_id o) ≡ true)
IsAdmissible (remove_optimistic c o) s = is_free_for c (s.messages_by_id o) ≡ true
IsAdmissible _ s = Unit

messaging_reducer-IsCoherent :
    (a : Action) (s : MessagingState)
    → IsCoherent s
    → IsAdmissible a s
    → IsCoherent (messaging_reducer a s)
unfolding messaging_reducer
messaging_reducer-IsCoherent (hydrate c ms user) s h w =
    hydrate_messages_from_fetch-IsCoherent c ms user s h w
messaging_reducer-IsCoherent (append_send c m) s h w =
    append_message_from_send-IsCoherent c m s h w.0 w.1 w.2
messaging_reducer-IsCoherent (append_incoming m user) s h w =
    append_incoming_message_if_new-IsCoherent m user s h w
messaging_reducer-IsCoherent (acked c o m) s h w = ack c w.0 w.2 w.3
  where
    ack :
        (k : String)
        → m.conversation_id ≡ k
        → is_free_for k (s.messages_by_id m.id) ≡ true
        → is_free_for k (s.messages_by_id o) ≡ true
        → IsCoherent (replace_optimistic_message k o m s)
    ack k e f g =
        subst (λ x. IsCoherent (replace_optimistic_message x o m s)) e
          (replace_optimistic_message-IsCoherent o m s h w.1 (rw e f) (rw e g))
messaging_reducer-IsCoherent (remove_optimistic c o) s h w =
    remove_optimistic_message-IsCoherent c o s h w
messaging_reducer-IsCoherent (activate c) s h w =
    SameThreads-IsCoherent s _ (set_active_conversation_id-SameThreads s c) h
messaging_reducer-IsCoherent (pend_peer p) s h w =
    SameThreads-IsCoherent s _ (set_pending_direct_peer-SameThreads s p) h
messaging_reducer-IsCoherent (own_plaintext id t) s h w =
    SameThreads-IsCoherent s _ (record_own_send_plaintext-SameThreads s id t) h
messaging_reducer-IsCoherent (peer_decrypted id t k u) s h w =
    SameThreads-IsCoherent s _ (set_peer_decrypted_body-SameThreads s id t k u) h
messaging_reducer-IsCoherent (receipt_fanout id c u at kind) s h w =
    SameThreads-IsCoherent s _ (merge_receipt_fanout_from_socket-SameThreads s id c u at kind) h
messaging_reducer-IsCoherent (receipt_summaries c items) s h w =
    SameThreads-IsCoherent s _ (merge_receipt_summaries_from_fetch-SameThreads c items s) h
messaging_reducer-IsCoherent (send_pending c p) s h w =
    SameThreads-IsCoherent s _ (set_send_pending-SameThreads s c p) h
messaging_reducer-IsCoherent (send_error c e) s h w =
    SameThreads-IsCoherent s _ (set_send_error-SameThreads s c e) h
messaging_reducer-IsCoherent (plaintext_from_disk entries) s h w =
    SameThreads-IsCoherent s _ (hydrate_sender_plaintext_from_disk-SameThreads entries s) h
messaging_reducer-IsCoherent (scroll_to m c r) s h w =
    SameThreads-IsCoherent s _ (set_conversation_scroll_target-SameThreads s m c r) h
messaging_reducer-IsCoherent clear_scroll s h w =
    SameThreads-IsCoherent s _ (clear_conversation_scroll_target-SameThreads s) h
messaging_reducer-IsCoherent reset s h w = reset_messaging-IsCoherent s
messaging_reducer-IsCoherent logged_out s h w = initial_state-IsCoherent

-- The states that a run of actions goes through, each admissible where it is dispatched.
unfoldable pub run : List Action → MessagingState → MessagingState
run [] s = s
run (a ∷ acts) s = run acts (messaging_reducer a s)

abbrev pub AllAdmissible : List Action → MessagingState → Type 0
AllAdmissible [] s = Unit
AllAdmissible (a ∷ acts) s = IsAdmissible a s × AllAdmissible acts (messaging_reducer a s)

run_from-IsCoherent :
    (acts : List Action) (s : MessagingState)
    → IsCoherent s
    → AllAdmissible acts s
    → IsCoherent (run acts s)
unfolding run
run_from-IsCoherent [] s h w = h
run_from-IsCoherent (a ∷ acts) s h w =
    run_from-IsCoherent acts (messaging_reducer a s) (messaging_reducer-IsCoherent a s h w.0) w.1

-- Whatever admissible actions are dispatched from the initial state, every conversation lists,
-- once each, exactly the ids of the messages that are stored for it; and each id that waits for
-- an ack is a client id whose row, if there is one, belongs to the conversation it waits in.
pub run-IsCoherent :
    (acts : List Action) → AllAdmissible acts initial_state → IsCoherent (run acts initial_state)
run-IsCoherent acts w = run_from-IsCoherent acts initial_state initial_state-IsCoherent w
