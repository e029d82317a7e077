-- ===== src/Web/Messaging/Receipts.antt =====
-- The receipt reducers of apps/web-client/src/modules/home/stores/messagingSlice.ts.
use messaging_system.Common.{
  String, Option, none, some, List, [], ◌∷◌, put, trim, is_empty, ◌==◌, if◌then◌else◌, get_or,
}
use messaging_system.Web.Messaging.State.{
  StoredMessage, MessageReceiptEntry, MessageReceiptSummary, MessagingState,
}
use messaging_system.Web.Messaging.Merge.{merge_receipt_summary, receipts_of}

pub data ReceiptKind : Type 0 where
  delivered seen : ReceiptKind

abbrev pub empty_entry : MessageReceiptEntry
empty_entry = record { delivered_at = none; seen_at = none }

abbrev pub stamp : ReceiptKind → String → MessageReceiptEntry → MessageReceiptEntry
stamp delivered at entry = record entry { delivered_at = some at }
stamp seen at entry = record entry { seen_at = some at }

-- `prev ?? { messageId, conversationId, createdAt, receiptsByUserId: {} }`
abbrev pub base_summary :
    Option MessageReceiptSummary → String → StoredMessage → MessageReceiptSummary
base_summary none message_id msg = record {
  message_id = message_id;
  conversation_id = msg.conversation_id;
  created_at = msg.created_at;
  receipts_by_user_id = some (λ _. none);
}
base_summary (some prev) message_id msg = prev

abbrev pub stamp_summary :
    ReceiptKind → String → String → MessageReceiptSummary → MessageReceiptSummary
stamp_summary kind actor_user_id at base =
    let receipts = receipts_of base.receipts_by_user_id in
    record base {
      receipts_by_user_id = some (
          put actor_user_id (stamp kind at (get_or (receipts actor_user_id) empty_entry)) receipts);
    }

unfoldable pub merge_receipt_fanout_from_socket :
    String → String → String → String → ReceiptKind → MessagingState → MessagingState
merge_receipt_fanout_from_socket message_id conversation_id actor_user_id at kind state =
    elim (state.messages_by_id message_id) [
      | none ↦ state
      | some msg ↦
          if msg.conversation_id == conversation_id
          then record state {
            receipts_by_message_id =
                put message_id
                  (stamp_summary kind actor_user_id at
                    (base_summary (state.receipts_by_message_id message_id) message_id msg))
                  state.receipts_by_message_id;
          }
          else state
    ]

-- `prev ? mergeReceiptSummary(prev, item) : item`
unfoldable pub merge_into :
    Option MessageReceiptSummary → MessageReceiptSummary → MessageReceiptSummary
merge_into none item = item
merge_into (some prev) item = merge_receipt_summary prev item

unfoldable pub merge_item : String → MessageReceiptSummary → MessagingState → MessagingState
merge_item cid item state =
    if item.conversation_id == cid
    then record state {
      receipts_by_message_id =
          put item.message_id (merge_into (state.receipts_by_message_id item.message_id) item)
            state.receipts_by_message_id;
    }
    else state

-- The loop over the fetched summaries.
unfoldable pub merge_items : String → List MessageReceiptSummary → MessagingState → MessagingState
merge_items cid [] state = state
merge_items cid (item ∷ items) state = merge_items cid items (merge_item cid item state)

unfoldable pub merge_receipt_summaries_from_fetch :
    String → List MessageReceiptSummary → MessagingState → MessagingState
merge_receipt_summaries_from_fetch conversation_id items state =
    let cid = trim conversation_id in if is_empty cid then state else merge_items cid items state
