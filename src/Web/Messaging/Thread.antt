-- ===== src/Web/Messaging/Thread.antt =====
-- The reducers of apps/web-client/src/modules/home/stores/messagingSlice.ts that change the thread
-- of a conversation: sends, incoming messages, and the end of an optimistic row.

use messaging_system.Common.{
  String, Option, none, some, List, [], ◌∷◌, ◌++◌, ◌&&◌, not, Dict, put, remove, get_list, is_some,
  set, trim_or_empty, starts_with, if◌then◌else◌, contains, without, index_of,
}
use messaging_system.Web.Messaging.State.{
  Message, StoredMessage, stored, MessagingState, is_own, loading, sent,
}
use messaging_system.Web.Messaging.Merge.{
  dedupe_ids_stable, merge_server_message_with_optimistic_client_fields,
  set_sender_plaintext_after_optimistic_merge,
}

-- `if (!ids.includes(id)) map[c] = [...ids, id]`
abbrev pub list_id : String → String → List String → Dict (List String) → Dict (List String)
list_id conversation_id id ids lists =
    if contains id ids then lists else put conversation_id (ids ++ id ∷ []) lists

unfoldable pub append_message_from_send : String → StoredMessage → MessagingState → MessagingState
append_message_from_send conversation_id message state =
    let ids = get_list conversation_id state.message_ids_by_conversation_id in
    let q = get_list conversation_id state.pending_outgoing_client_ids_by_conversation_id in
    let is_client = starts_with message.id "client:" in
    record state {
      messages_by_id = put message.id message state.messages_by_id;
      message_ids_by_conversation_id =
          list_id conversation_id message.id ids state.message_ids_by_conversation_id;
      pending_outgoing_client_ids_by_conversation_id =
          if is_client
          then put conversation_id (q ++ message.id ∷ [])
              state.pending_outgoing_client_ids_by_conversation_id
          else state.pending_outgoing_client_ids_by_conversation_id;
      outbound_receipt_by_message_id =
          if is_client
          then put message.id loading state.outbound_receipt_by_message_id
          else state.outbound_receipt_by_message_id;
    }

-- The `while` loop of `appendIncomingMessageIfNew`: ids that are neither listed nor stored leave
-- the head of the queue.
unfoldable pub shift_orphans : List String → Dict StoredMessage → List String → List String
shift_orphans ids by_id [] = []
shift_orphans ids by_id (head ∷ q) =
    if contains head ids
    then head ∷ q
    else if is_some (by_id head)
    then head ∷ q
    else shift_orphans ids by_id q

-- The ids after the optimistic id became the server's, `indexOf` and the write at that place.
unfoldable pub adopt_id : String → String → List String → List String
adopt_id optimistic_id id ids = elim (index_of optimistic_id ids) [
  | some idx ↦ dedupe_ids_stable (set ids idx id)
  | none ↦
      let without_opt = without optimistic_id ids in
      dedupe_ids_stable (if contains id ids then without_opt else without_opt ++ id ∷ [])
]

-- The merge of the server's message into the optimistic row, as both reducers make it.
unfoldable pub settle : String → Option StoredMessage → Message → MessagingState → MessagingState
settle optimistic_id optimistic message state =
    let merged = merge_server_message_with_optimistic_client_fields message optimistic in
    set_sender_plaintext_after_optimistic_merge
      (record state {
        messages_by_id = put message.id merged (remove optimistic_id state.messages_by_id);
        outbound_receipt_by_message_id =
            put message.id sent (remove optimistic_id state.outbound_receipt_by_message_id);
        receipts_by_message_id = remove optimistic_id state.receipts_by_message_id;
      })
      message.id merged optimistic

-- The branch of an own echo whose optimistic row is at the head of the queue.
unfoldable pub settle_echo :
    String → List String → StoredMessage → List String → Message → MessagingState → MessagingState
settle_echo optimistic_id rest optimistic ids message state =
    let settled = settle optimistic_id (some optimistic) message state in
    record settled {
      message_ids_by_conversation_id =
          put message.conversation_id (adopt_id optimistic_id message.id ids)
            settled.message_ids_by_conversation_id;
      pending_outgoing_client_ids_by_conversation_id =
          put message.conversation_id rest settled.pending_outgoing_client_ids_by_conversation_id;
    }

-- What follows where no optimistic row takes the message.
unfoldable pub append_plain : String → List String → Message → MessagingState → MessagingState
append_plain self_id ids message state = record state {
  messages_by_id = put message.id (stored message) state.messages_by_id;
  message_ids_by_conversation_id =
      list_id message.conversation_id message.id ids state.message_ids_by_conversation_id;
  outbound_receipt_by_message_id =
      if is_own self_id message.sender_id
        && not (is_some (state.outbound_receipt_by_message_id message.id))
      then put message.id sent state.outbound_receipt_by_message_id
      else state.outbound_receipt_by_message_id;
}

-- The head of the shifted queue, and the row that it names.
unfoldable pub echo : String → List String → List String → Message → MessagingState → MessagingState
echo self_id ids [] message state = append_plain self_id ids message state
echo self_id ids (optimistic_id ∷ rest) message state = elim (state.messages_by_id optimistic_id) [
  | none ↦ append_plain self_id ids message state
  | some optimistic ↦ settle_echo optimistic_id rest optimistic ids message state
]

unfoldable pub append_incoming_message_if_new :
    Message → Option String → MessagingState → MessagingState
append_incoming_message_if_new message current_user_id state =
    let conversation_id = message.conversation_id in
    let ids = get_list conversation_id state.message_ids_by_conversation_id in
    let self_id = trim_or_empty current_user_id in
    let q =
      shift_orphans ids state.messages_by_id
        (get_list conversation_id state.pending_outgoing_client_ids_by_conversation_id) in
    let shifted = record state {
      pending_outgoing_client_ids_by_conversation_id =
          put conversation_id q state.pending_outgoing_client_ids_by_conversation_id;
    } in
    if is_some (state.messages_by_id message.id)
    then state
    else if is_own self_id message.sender_id
    then echo self_id ids q message shifted
    else append_plain self_id ids message state

-- The id lists after an ack.
unfoldable pub acked_ids : String → String → String → Dict (List String) → Dict (List String)
acked_ids conversation_id optimistic_id id lists =
    let ids = get_list conversation_id lists in
    elim (index_of optimistic_id ids) [
      | none ↦ list_id conversation_id id ids lists
      | some idx ↦ put conversation_id (dedupe_ids_stable (set ids idx id)) lists
    ]

unfoldable pub replace_optimistic_message :
    String → String → Message → MessagingState → MessagingState
replace_optimistic_message conversation_id optimistic_id message state =
    let pq = get_list conversation_id state.pending_outgoing_client_ids_by_conversation_id in
    let prev = state.messages_by_id optimistic_id in
    let settled = settle optimistic_id prev message (record state {
      pending_outgoing_client_ids_by_conversation_id =
          put conversation_id (without optimistic_id pq)
            state.pending_outgoing_client_ids_by_conversation_id;
    }) in
    record settled {
      message_ids_by_conversation_id =
          acked_ids conversation_id optimistic_id message.id settled.message_ids_by_conversation_id;
    }

unfoldable pub remove_optimistic_message : String → String → MessagingState → MessagingState
remove_optimistic_message conversation_id client_id state =
    let pq = get_list conversation_id state.pending_outgoing_client_ids_by_conversation_id in
    let ids = get_list conversation_id state.message_ids_by_conversation_id in
    record state {
      pending_outgoing_client_ids_by_conversation_id =
          put conversation_id (without client_id pq)
            state.pending_outgoing_client_ids_by_conversation_id;
      message_ids_by_conversation_id =
          put conversation_id (without client_id ids) state.message_ids_by_conversation_id;
      messages_by_id = remove client_id state.messages_by_id;
      outbound_receipt_by_message_id = remove client_id state.outbound_receipt_by_message_id;
      receipts_by_message_id = remove client_id state.receipts_by_message_id;
    }
