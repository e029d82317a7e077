-- ===== src/Web/Messaging/Reducer.antt =====
-- The slice of apps/web-client/src/modules/home/stores/messagingSlice.ts as one function of an
-- action, and runs of it.
use messaging_system.Common.{String, Bool, Option, List}
use messaging_system.Web.Messaging.State.{
  Message, StoredMessage, MessageReceiptSummary, PendingDirectPeer, ScrollTargetReason,
  MessagingState, initial_state,
}
use messaging_system.Web.Messaging.Hydrate.{hydrate_messages_from_fetch}
use messaging_system.Web.Messaging.Thread.{
  append_message_from_send, append_incoming_message_if_new, replace_optimistic_message,
  remove_optimistic_message,
}
use messaging_system.Web.Messaging.Session.{
  set_active_conversation_id, set_pending_direct_peer, record_own_send_plaintext,
  set_peer_decrypted_body, set_send_pending, set_send_error, hydrate_sender_plaintext_from_disk,
  set_conversation_scroll_target, clear_conversation_scroll_target, reset_messaging,
}
use messaging_system.Web.Messaging.Receipts.{
  ReceiptKind, merge_receipt_fanout_from_socket, merge_receipt_summaries_from_fetch,
}

-- One constructor for each reducer, with its payload; `logged_out` is the extra reducer.
pub data Action : Type 0 where
  activate : Option String → Action
  pend_peer : Option PendingDirectPeer → Action
  hydrate : String → List Message → Option String → Action
  append_send : String → StoredMessage → Action
  append_incoming : Message → Option String → Action
  own_plaintext : String → String → Action
  acked : String → String → Message → Action
  peer_decrypted : String → String → Option (Option String) → Option (Option String) → Action
  remove_optimistic : String → String → Action
  receipt_fanout : String → String → String → String → ReceiptKind → Action
  receipt_summaries : String → List MessageReceiptSummary → Action
  send_pending : String → Bool → Action
  send_error : String → Option String → Action
  plaintext_from_disk : List (String × String) → Action
  scroll_to : String → String → Option ScrollTargetReason → Action
  clear_scroll : Action
  reset : Action
  logged_out : Action

unfoldable pub messaging_reducer : Action → MessagingState → MessagingState
messaging_reducer (activate c) s = set_active_conversation_id c s
messaging_reducer (pend_peer p) s = set_pending_direct_peer p s
messaging_reducer (hydrate c ms user) s = hydrate_messages_from_fetch c ms user s
messaging_reducer (append_send c m) s = append_message_from_send c m s
messaging_reducer (append_incoming m user) s = append_incoming_message_if_new m user s
messaging_reducer (own_plaintext id t) s = record_own_send_plaintext id t s
messaging_reducer (acked c o m) s = replace_optimistic_message c o m s
messaging_reducer (peer_decrypted id t k u) s = set_peer_decrypted_body id t k u s
messaging_reducer (remove_optimistic c o) s = remove_optimistic_message c o s
messaging_reducer (receipt_fanout id c u at kind) s =
    merge_receipt_fanout_from_socket id c u at kind s
messaging_reducer (receipt_summaries c items) s = merge_receipt_summaries_from_fetch c items s
messaging_reducer (send_pending c p) s = set_send_pending c p s
messaging_reducer (send_error c e) s = set_send_error c e s
messaging_reducer (plaintext_from_disk entries) s = hydrate_sender_plaintext_from_disk entries s
messaging_reducer (scroll_to m c r) s = set_conversation_scroll_target m c r s
messaging_reducer clear_scroll s = clear_conversation_scroll_target s
messaging_reducer reset s = reset_messaging s
messaging_reducer logged_out s = initial_state
