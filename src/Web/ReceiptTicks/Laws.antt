-- ===== src/Web/ReceiptTicks/Laws.antt =====
-- What the receipt ticks show.
use messaging_system.Common.{
  ◌≡◌, refl, ℕ, ◌+◌, ◌≤◌, ◌↔◌, ◌≢◌, String, Bool, true, false, Option, some, List, [], ◌∷◌, arith,
  All, is_nil, if◌then◌else◌, length, starts_with, eq_iff,
}
use messaging_system.Web.Messaging.State.{
  MessagingState, StoredMessage, MessageReceiptSummary, OutboundReceiptLevel,
}
use messaging_system.Web.ReceiptTicks.{
  count_if, GroupReceiptProgress, seen, delivered, group, count_from, count_group_receipts,
  entry_of, has_seen_at, has_delivered_at, recipients, group_state, group_display,
  select_outbound_receipt_display, select_outbound_receipt_tick_state,
}

-- How many of the ids pass a test.
module _ (test : String → Bool) where
  abbrev pub count : List String → ℕ
  count [] = 0
  count (id ∷ ids) = if test id then count ids + 1 else count ids

  count-bound : (ids : List String) → count ids ≤ length ids
  count-bound [] = omega arith
  count-bound (id ∷ ids) = ground (arith, count-bound ids)

  count_full : (ids : List String) → count ids ≡ length ids → All (λ id. test id ≡ true) ids
  count_full [] e = tt
  count_full (id ∷ ids) e =
      (ground (arith, count-bound ids), count_full ids (ground (arith, count-bound ids)))

  full_count : (ids : List String) → All (λ id. test id ≡ true) ids → count ids ≡ length ids
  full_count [] h = refl
  full_count (id ∷ ids) h = ground (arith, h.0, full_count ids h.1)

length_of_not-nil : (ids : List String) → is_nil ids ≡ false → length ids ≢ 0
length_of_not-nil [] h = ground arith
length_of_not-nil (id ∷ ids) h = ground arith

count_from-counts :
    (summary : Option MessageReceiptSummary) (ids : List String) (c : GroupReceiptProgress)
    → ((count_from summary ids c).seen
        ≡ c.seen + count (λ id. has_seen_at (entry_of summary id)) ids)
      × ((count_from summary ids c).delivered
          ≡ c.delivered + count (λ id. has_delivered_at (entry_of summary id)) ids)
      × ((count_from summary ids c).total ≡ c.total)
unfolding count_from
count_from-counts summary [] c = ground arith
count_from-counts summary (id ∷ ids) c =
    let e = entry_of summary id in
    ground (
      arith,
      count_from-counts summary ids (record c {
        delivered = count_if (has_delivered_at e) c.delivered;
        seen = count_if (has_seen_at e) c.seen;
      }),
    )

-- Every recipient has seen the message; every one has it.
abbrev pub AllSeen : Option MessageReceiptSummary → List String → Type 0
AllSeen summary ids = All (λ id. has_seen_at (entry_of summary id) ≡ true) ids

abbrev pub AllDelivered : Option MessageReceiptSummary → List String → Type 0
AllDelivered summary ids = All (λ id. has_delivered_at (entry_of summary id) ≡ true) ids

group_display-counts :
    (summary : Option MessageReceiptSummary) (outbound : Option OutboundReceiptLevel)
    (ids : List String)
    → is_nil (recipients ids) ≡ false
    → (((group_display summary outbound ids).state ≡ seen) ↔ (
        count (λ id. has_seen_at (entry_of summary id)) (recipients ids) ≡ length (recipients ids)))
      × (((group_display summary outbound ids).state ≡ delivered) ↔ (
          (count (λ id. has_delivered_at (entry_of summary id)) (recipients ids)
            ≡ length (recipients ids))
          × (count (λ id. has_seen_at (entry_of summary id)) (recipients ids)
              ≢ length (recipients ids))))
unfolding group_display count_group_receipts group_state
group_display-counts summary outbound ids h =
    let r = recipients ids in
    ground (
      arith,
      length_of_not-nil r,
      count_from-counts summary r (record { delivered = 0; seen = 0; total = length r }),
    )

group_display-ticks :
    (summary : Option MessageReceiptSummary) (outbound : Option OutboundReceiptLevel)
    (ids : List String)
    → is_nil (recipients ids) ≡ false
    → (((group_display summary outbound ids).state ≡ seen) ↔ AllSeen summary (recipients ids))
      × (((group_display summary outbound ids).state ≡ delivered)
          ↔ (AllDelivered summary (recipients ids) × ¬ (AllSeen summary (recipients ids))))
group_display-ticks summary outbound ids h =
    let r = recipients ids in
    let (s, d) = group_display-counts summary outbound ids h in
    let seen_test = λ (id : String). has_seen_at (entry_of summary id) in
    let delivered_test = λ (id : String). has_delivered_at (entry_of summary id) in
    (
      (λ e. count_full seen_test r (s.0 e), λ a. s.1 (full_count seen_test r a)),
      (
        λ e. (count_full delivered_test r (d.0 e).0, λ a. (d.0 e).1 (full_count seen_test r a)),
        λ a. d.1 (full_count delivered_test r a.0, λ e. a.1 (count_full seen_test r e)),
      ),
    )

select_display-group :
    (messaging : MessagingState) (message_id : String) (current_user_id : String)
    (msg : StoredMessage) (ids : List String)
    → messaging.messages_by_id message_id ≡ some msg
    → msg.sender_id ≡ current_user_id
    → starts_with message_id "client:" ≡ false
    → select_outbound_receipt_display messaging message_id current_user_id (group ids)
      ≡ group_display
          (messaging.receipts_by_message_id message_id)
          (messaging.outbound_receipt_by_message_id message_id)
          ids
unfolding select_outbound_receipt_display
select_display-group messaging message_id user msg ids e own c =
    ground (arith, e, own, c, eq_iff msg.sender_id user)

-- For an own message that the server has stored, in a group with at least one recipient, the tick is
-- `seen` exactly when every recipient has seen the message, and `delivered` exactly when it was
-- delivered to every recipient and not every one has seen it.
pub select_outbound_receipt_tick_state-group :
    (messaging : MessagingState) (message_id : String) (current_user_id : String)
    (msg : StoredMessage) (ids : List String)
    → messaging.messages_by_id message_id ≡ some msg
    → msg.sender_id ≡ current_user_id
    → starts_with message_id "client:" ≡ false
    → is_nil (recipients ids) ≡ false
    → ((select_outbound_receipt_tick_state messaging message_id current_user_id (group ids) ≡ seen)
        ↔ AllSeen (messaging.receipts_by_message_id message_id) (recipients ids))
      × ((select_outbound_receipt_tick_state messaging message_id current_user_id (group ids)
            ≡ delivered)
          ↔ (AllDelivered (messaging.receipts_by_message_id message_id) (recipients ids)
              × ¬ (AllSeen (messaging.receipts_by_message_id message_id) (recipients ids))))
select_outbound_receipt_tick_state-group messaging message_id user msg ids e own c h =
    rw
      (
        select_outbound_receipt_tick_state,
        select_display-group messaging message_id user msg ids e own c,
      )
      (group_display-ticks (messaging.receipts_by_message_id message_id)
        (messaging.outbound_receipt_by_message_id message_id) ids h)
