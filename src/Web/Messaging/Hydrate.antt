-- ===== src/Web/Messaging/Hydrate.antt =====
-- `hydrateMessagesFromFetch` of apps/web-client/src/modules/home/stores/messagingSlice.ts: the
-- fetched page replaces the thread of its conversation.
use messaging_system.Common.{
  String, Option, List, [], ◌∷◌, ◌&&◌, put, remove, get_list, map, reverse, trim_or_empty,
  is_truthy, if◌then◌else◌, contains,
}
use messaging_system.Web.Messaging.State.{
  Message, StoredMessage, MessagingState, is_own, sent, is_message_wire_e2ee,
}
use messaging_system.Web.Messaging.Merge.{merge_hydrate_fetched_with_existing}

-- The `delete`s of `hydrateMessagesFromFetch` for one id.
abbrev pub forget : String → MessagingState → MessagingState
forget id state = record state {
  messages_by_id = remove id state.messages_by_id;
  outbound_receipt_by_message_id = remove id state.outbound_receipt_by_message_id;
  receipts_by_message_id = remove id state.receipts_by_message_id;
  sender_plaintext_by_message_id = remove id state.sender_plaintext_by_message_id;
  decrypted_body_by_message_id = remove id state.decrypted_body_by_message_id;
  decrypted_attachment_key_by_message_id = remove id state.decrypted_attachment_key_by_message_id;
  decrypted_attachment_url_by_message_id = remove id state.decrypted_attachment_url_by_message_id;
}

unfoldable pub drop_one : List String → String → MessagingState → MessagingState
drop_one new_ids id state = if contains id new_ids then state else forget id state

-- The loop over the previous ids.
unfoldable pub drop_stale : List String → List String → MessagingState → MessagingState
drop_stale new_ids [] state = state
drop_stale new_ids (id ∷ prev_ids) state = drop_stale new_ids prev_ids (drop_one new_ids id state)

-- The body of an own hybrid row is the plaintext kept for it.
abbrev pub overlay_body : String → MessagingState → StoredMessage → StoredMessage
overlay_body self_id state merged =
    if is_own self_id merged.sender_id
      && is_truthy merged.body
      && is_message_wire_e2ee merged.message
      && is_truthy (state.sender_plaintext_by_message_id merged.id)
    then record merged {
      message = record merged.message { body = state.sender_plaintext_by_message_id merged.id };
    }
    else merged

unfoldable pub store_fetched_one : String → Message → MessagingState → MessagingState
store_fetched_one self_id m state =
    let merged = merge_hydrate_fetched_with_existing (state.messages_by_id m.id) m in
    record state {
      messages_by_id = put merged.id (overlay_body self_id state merged) state.messages_by_id;
      outbound_receipt_by_message_id =
          if is_own self_id merged.sender_id
          then put merged.id sent state.outbound_receipt_by_message_id
          else state.outbound_receipt_by_message_id;
    }

-- The loop over the fetched messages, oldest first.
unfoldable pub store_fetched : String → List Message → MessagingState → MessagingState
store_fetched self_id [] state = state
store_fetched self_id (m ∷ ms) state = store_fetched self_id ms (store_fetched_one self_id m state)

abbrev pub ids_of : List Message → List String
ids_of = map (λ m. m.id)

unfoldable pub hydrate_messages_from_fetch :
    String → List Message → Option String → MessagingState → MessagingState
hydrate_messages_from_fetch conversation_id messages current_user_id state =
    let self_id = trim_or_empty current_user_id in
    let prev_ids = get_list conversation_id state.message_ids_by_conversation_id in
    let ordered = reverse messages in
    let dropped = drop_stale (ids_of ordered) prev_ids state in
    let listed = record dropped {
      message_ids_by_conversation_id =
          put conversation_id (ids_of ordered) dropped.message_ids_by_conversation_id;
    } in
    let filled = store_fetched self_id ordered listed in
    record filled {
      pending_outgoing_client_ids_by_conversation_id =
          remove conversation_id filled.pending_outgoing_client_ids_by_conversation_id;
    }
