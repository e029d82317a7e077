-- ===== src/Web/Messaging/Laws/Receipts.antt =====
-- Receipts only accumulate, and the fan-out events of a message may come in any order.
use messaging_system.Common.{
  ◌≡◌, String, true, false, Option, none, some, List, [], ◌∷◌, arith, eq_iff, eq_refl, ◌==◌,
  is_some, trim, Dict, Bool,
}
use messaging_system.Web.Messaging.State.{
  StoredMessage, MessageReceiptEntry, MessageReceiptSummary, MessagingState,
}
use messaging_system.Web.Messaging.Merge.{receipts_of, merge_entry, merge_receipt_summary}
use messaging_system.Web.Messaging.Receipts.{
  ReceiptKind, delivered, seen, merge_receipt_fanout_from_socket, merge_into, merge_item,
  merge_items, merge_receipt_summaries_from_fetch,
}

-- The receipt entry that the slice holds of a user for a message.
abbrev pub entries_of : Option MessageReceiptSummary → Dict MessageReceiptEntry
entries_of none u = none
entries_of (some summary) u = receipts_of summary.receipts_by_user_id u

abbrev pub entry : MessagingState → String → String → Option MessageReceiptEntry
entry s id u = entries_of (s.receipts_by_message_id id) u

abbrev pub has_delivered : Option MessageReceiptEntry → Bool
has_delivered none = false
has_delivered (some e) = is_some e.delivered_at

abbrev pub has_seen : Option MessageReceiptEntry → Bool
has_seen none = false
has_seen (some e) = is_some e.seen_at

-- For a stored message, a delivery event and a read event of one user end in the same entry
-- whichever comes first: it has both times. The entry of any other user is as it was.
pub merge_receipt_fanout-order :
    (id c u d r v : String) (msg : StoredMessage) (s : MessagingState)
    → s.messages_by_id id ≡ some msg
    → msg.conversation_id ≡ c
    → (u == v) ≡ false
    → let first_delivered = merge_receipt_fanout_from_socket id c u d delivered s in
      let first_seen = merge_receipt_fanout_from_socket id c u r seen s in
      let a = merge_receipt_fanout_from_socket id c u r seen first_delivered in
      let b = merge_receipt_fanout_from_socket id c u d delivered first_seen in
      (entry a id u ≡ some (record { delivered_at = some d; seen_at = some r }))
      × (entry b id u ≡ some (record { delivered_at = some d; seen_at = some r }))
      × (entry a id v ≡ entry s id v)
      × (entry b id v ≡ entry s id v)
unfolding merge_receipt_fanout_from_socket
merge_receipt_fanout-order id c u d r v msg s e f other =
    ground (arith, eq_refl id, eq_refl c, eq_refl u)

-- A fetched page never takes a delivery or a read away.
merge_item-keeps :
    (cid id u : String) (item : MessageReceiptSummary) (s : MessagingState)
    → (has_delivered (entry s id u) ≡ true
        → has_delivered (entry (merge_item cid item s) id u) ≡ true)
      × (has_seen (entry s id u) ≡ true → has_seen (entry (merge_item cid item s) id u) ≡ true)
unfolding merge_item merge_into merge_receipt_summary merge_entry
merge_item-keeps cid id u item s = ground (arith, eq_iff item.message_id id)

merge_items-keeps :
    (cid id u : String) (items : List MessageReceiptSummary) (s : MessagingState)
    → (has_delivered (entry s id u) ≡ true
        → has_delivered (entry (merge_items cid items s) id u) ≡ true)
      × (has_seen (entry s id u) ≡ true → has_seen (entry (merge_items cid items s) id u) ≡ true)
unfolding merge_items
merge_items-keeps cid id u [] s = (λ e. e, λ e. e)
merge_items-keeps cid id u (item ∷ items) s =
    let (d, r) = merge_item-keeps cid id u item s in
    let (d', r') = merge_items-keeps cid id u items (merge_item cid item s) in
    (λ e. d' (d e), λ e. r' (r e))

-- A time of an entry is there.
abbrev pub has_time : ReceiptKind → Option MessageReceiptEntry → Bool
has_time delivered e = has_delivered e
has_time seen e = has_seen e

-- A delivery or read time of a user on a message is still there after any page of receipts is
-- merged.
pub merge_receipt_summaries-keeps :
    (kind : ReceiptKind) (c id u : String) (items : List MessageReceiptSummary) (s : MessagingState)
    → has_time kind (entry s id u) ≡ true
    → has_time kind (entry (merge_receipt_summaries_from_fetch c items s) id u) ≡ true
unfolding merge_receipt_summaries_from_fetch
merge_receipt_summaries-keeps delivered c id u items s h =
    ground (arith, merge_items-keeps (trim c) id u items s)
merge_receipt_summaries-keeps seen c id u items s h =
    ground (arith, merge_items-keeps (trim c) id u items s)
