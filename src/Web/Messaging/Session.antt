-- ===== src/Web/Messaging/Session.antt =====
-- The reducers of apps/web-client/src/modules/home/stores/messagingSlice.ts that choose the active
-- conversation and the scroll target, keep plaintexts and record the state of a send.
use messaging_system.Common.{
  ◌+◌, String, Bool, true, Option, none, some, List, [], ◌∷◌, ◌&&◌, not, put, remove, is_some, trim,
  trim_or_empty, is_empty, is_truthy, get_or, ◌==◌, if◌then◌else◌,
}
use messaging_system.Web.Messaging.State.{
  MessagingState, PendingDirectPeer, ScrollTargetReason, initial_state,
}

unfoldable pub set_active_conversation_id : Option String → MessagingState → MessagingState
set_active_conversation_id payload state =
    let next = trim_or_empty payload in
    let target_c = trim_or_empty state.scroll_target_conversation_id in
    let target_m = trim_or_empty state.scroll_target_message_id in
    let opens =
      not (is_empty next)
      && not (is_empty target_c)
      && not (is_empty target_m)
      && next == target_c in
    record state {
      active_conversation_id = payload;
      pending_direct_peer = if is_truthy payload then none else state.pending_direct_peer;
      scroll_target_nonce =
          if opens then state.scroll_target_nonce + 1 else state.scroll_target_nonce;
    }

unfoldable pub set_pending_direct_peer : Option PendingDirectPeer → MessagingState → MessagingState
set_pending_direct_peer payload state = record state {
  pending_direct_peer = payload;
  active_conversation_id = if is_some payload then none else state.active_conversation_id;
}

unfoldable pub record_own_send_plaintext : String → String → MessagingState → MessagingState
record_own_send_plaintext message_id t state =
    let key = trim message_id in
    if is_empty key then state else if is_empty t then state else record state {
      sender_plaintext_by_message_id = put key t state.sender_plaintext_by_message_id;
    }

-- An `undefined` field changes nothing, a null or blank one clears the entry.
abbrev pub resolve_attachment :
    String → Option (Option String) → (String → Option String) → String → Option String
resolve_attachment message_id none m = m
resolve_attachment message_id (some v) m =
    if is_empty (trim_or_empty v) then remove message_id m else put message_id (trim_or_empty v) m

unfoldable pub set_peer_decrypted_body :
    String
    → String
    → Option (Option String)
    → Option (Option String)
    → MessagingState
    → MessagingState
set_peer_decrypted_body message_id plaintext resolved_key resolved_url state = record state {
  decrypted_body_by_message_id = put message_id plaintext state.decrypted_body_by_message_id;
  decrypted_attachment_key_by_message_id =
      resolve_attachment message_id resolved_key state.decrypted_attachment_key_by_message_id;
  decrypted_attachment_url_by_message_id =
      resolve_attachment message_id resolved_url state.decrypted_attachment_url_by_message_id;
}

unfoldable pub set_send_pending : String → Bool → MessagingState → MessagingState
set_send_pending conversation_id pending state = record state {
  send_pending_by_conversation_id =
      if pending
      then put conversation_id true state.send_pending_by_conversation_id
      else remove conversation_id state.send_pending_by_conversation_id;
}

unfoldable pub set_send_error : String → Option String → MessagingState → MessagingState
set_send_error conversation_id error state = record state {
  send_error_by_conversation_id =
      if is_truthy error
      then put conversation_id (get_or error "") state.send_error_by_conversation_id
      else remove conversation_id state.send_error_by_conversation_id;
}

-- The loop over the entries from the disk.
unfoldable pub hydrate_sender_plaintext_from_disk :
    List (String × String) → MessagingState → MessagingState
hydrate_sender_plaintext_from_disk [] state = state
hydrate_sender_plaintext_from_disk ((message_id, plaintext) ∷ entries) state =
    hydrate_sender_plaintext_from_disk entries (
      if is_empty (trim message_id) then state else record state {
        sender_plaintext_by_message_id =
            put message_id plaintext state.sender_plaintext_by_message_id;
      })

unfoldable pub set_conversation_scroll_target :
    String → String → Option ScrollTargetReason → MessagingState → MessagingState
set_conversation_scroll_target message conversation reason state =
    let message_id = trim message in
    let conversation_id = trim conversation in
    if is_empty message_id
    then state
    else if is_empty conversation_id
    then state
    else record state {
      scroll_target_message_id = some message_id;
      scroll_target_conversation_id = some conversation_id;
      scroll_target_reason = reason;
      scroll_target_nonce = state.scroll_target_nonce + 1;
    }

unfoldable pub clear_conversation_scroll_target : MessagingState → MessagingState
clear_conversation_scroll_target state =
    if not (is_some state.scroll_target_message_id)
      && not (is_some state.scroll_target_conversation_id)
    then state
    else record state {
      scroll_target_message_id = none;
      scroll_target_conversation_id = none;
      scroll_target_reason = none;
    }

unfoldable pub reset_messaging : MessagingState → MessagingState
reset_messaging state = initial_state
