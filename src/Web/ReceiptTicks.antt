-- ===== src/Web/ReceiptTicks.antt =====
-- The receipt ticks of an own message,
-- apps/web-client/src/modules/home/stores/messagingSelectors.ts.
pub mod Laws
mod Tests
use Prim.Native.String
use Prim.Native.Nat.{◌/◌, ◌%◌}
use messaging_system.Common.{
  ℕ, zero, suc, ◌+◌, String, Bool, true, false, Option, none, some, List, [], ◌∷◌, Dict, not, ◌==◌,
  nat_eq, ltb, leb, trim, trim_or_empty, is_empty, is_truthy, length, starts_with, if◌then◌else◌,
  ◌||◌,
}
use messaging_system.Web.Messaging.State.{
  MessageReceiptEntry, MessageReceiptSummary, MessagingState, OutboundReceiptLevel,
}
use messaging_system.Web.Messaging.Merge.{dedupe_ids_stable}

pub data ReceiptTickState : Type 0 where
  loading unknown sent delivered seen : ReceiptTickState

pub record GroupReceiptProgress : Type 0 where
  pub delivered : ℕ
  pub seen : ℕ
  pub total : ℕ

pub data ReceiptTickContext : Type 0 where
  direct : Option String → ReceiptTickContext
  group : List String → ReceiptTickContext

pub record OutboundReceiptDisplay : Type 0 where
  pub state : ReceiptTickState
  pub group_progress : Option GroupReceiptProgress
  pub group_subtitle : Option String

-- `receiptsByUserId?.[uid]` of `receiptsByMessageId[messageId]`
abbrev pub entry_of : Option MessageReceiptSummary → String → Option MessageReceiptEntry
entry_of none uid = none
entry_of (some summary) uid = elim summary.receipts_by_user_id [
  | none ↦ none
  | some receipts ↦ receipts uid
]

-- `e?.deliveredAt` and `e?.seenAt` as conditions
abbrev pub has_delivered_at : Option MessageReceiptEntry → Bool
has_delivered_at none = false
has_delivered_at (some e) = is_truthy e.delivered_at

abbrev pub has_seen_at : Option MessageReceiptEntry → Bool
has_seen_at none = false
has_seen_at (some e) = is_truthy e.seen_at

abbrev pub count_if : Bool → ℕ → ℕ
count_if true n = n + 1
count_if false n = n

-- The loop of `countGroupReceipts` over the recipients, from the counters so far.
unfoldable pub count_from :
    Option MessageReceiptSummary → List String → GroupReceiptProgress → GroupReceiptProgress
count_from summary [] counts = counts
count_from summary (uid ∷ uids) counts =
    let e = entry_of summary uid in
    count_from summary uids (record counts {
      delivered = count_if (has_delivered_at e) counts.delivered;
      seen = count_if (has_seen_at e) counts.seen;
    })

unfoldable pub count_group_receipts :
    Option MessageReceiptSummary → List String → GroupReceiptProgress
unfolding count_from
count_group_receipts summary recipient_user_ids =
    count_from summary recipient_user_ids
      (record { delivered = 0; seen = 0; total = length recipient_user_ids })

nth : String → ℕ → String
nth String.[] n = ""
nth (String.◌∷◌ c s) zero = String.◌∷◌ c String.[]
nth (String.◌∷◌ c s) (suc n) = nth s n

digit : ℕ → String
unfolding nth
digit n = nth "0123456789" n

-- The decimal digits of a number in front of a text; a number has fewer digits than its value and
-- one more.
digits_from : ℕ → ℕ → String → String
unfolding digit
digits_from zero n out = out
digits_from (suc fuel) n out =
    let out = String.◌++◌ (digit (n % 10)) out in
    let more = digits_from fuel (n / 10) out in if ltb n 10 then out else more

-- `${n}`
unfoldable pub decimal : ℕ → String
unfolding digits_from
decimal n = digits_from (suc n) n ""

-- `${n}/${total}`
of_total : ℕ → GroupReceiptProgress → String
unfolding decimal
of_total n g = String.◌++◌ (decimal n) (String.◌++◌ "/" (decimal g.total))

unfoldable pub group_receipt_subtitle : ReceiptTickState → GroupReceiptProgress → Option String
unfolding of_total
group_receipt_subtitle seen g = none
group_receipt_subtitle state g =
    if leb g.total 1
    then none
    else if ltb g.delivered g.total
    then some (String.◌++◌ (of_total g.delivered g) " delivered")
    else if ltb g.seen g.total
    then some (String.◌++◌ (of_total g.seen g) " read")
    else none

abbrev pub plain : ReceiptTickState → OutboundReceiptDisplay
plain state = record { state = state; group_progress = none; group_subtitle = none }

-- The tick of the outbound level alone; a level that is not there counts as sent.
abbrev pub tick_of_outbound : Option OutboundReceiptLevel → ReceiptTickState
tick_of_outbound none = sent
tick_of_outbound (some OutboundReceiptLevel.loading) = loading
tick_of_outbound (some OutboundReceiptLevel.sent) = sent
tick_of_outbound (some OutboundReceiptLevel.delivered) = delivered
tick_of_outbound (some OutboundReceiptLevel.seen) = seen

-- `[...new Set(ids.map((id) => id.trim()).filter(Boolean))]`: a set keeps first occurrences, in
-- their order.
trimmed : List String → List String
trimmed [] = []
trimmed (id ∷ ids) = let rest = trimmed ids in if is_empty (trim id) then rest else trim id ∷ rest

unfoldable pub recipients : List String → List String
unfolding trimmed
recipients ids = dedupe_ids_stable (trimmed ids)

unfoldable pub direct_tick :
    Option MessageReceiptSummary → Option OutboundReceiptLevel → Option String → ReceiptTickState
direct_tick summary outbound peer_user_id =
    let peer = trim_or_empty peer_user_id in
    let entry = if is_empty peer then none else entry_of summary peer in
    if has_seen_at entry
    then seen
    else if has_delivered_at entry
    then delivered
    else tick_of_outbound outbound

-- The tick of a group while not every recipient has the message.
abbrev pub partial_tick : Option OutboundReceiptLevel → ReceiptTickState
partial_tick none = sent
partial_tick (some OutboundReceiptLevel.loading) = loading
partial_tick (some OutboundReceiptLevel.sent) = sent
partial_tick (some _) = unknown

unfoldable pub group_state : GroupReceiptProgress → Option OutboundReceiptLevel → ReceiptTickState
group_state counts outbound =
    if nat_eq counts.seen counts.total
    then seen
    else if nat_eq counts.delivered counts.total
    then delivered
    else partial_tick outbound

unfoldable pub group_display :
    Option MessageReceiptSummary
    → Option OutboundReceiptLevel
    → List String
    → OutboundReceiptDisplay
unfolding count_group_receipts recipients group_state group_receipt_subtitle
group_display summary outbound ids =
    let counts = count_group_receipts summary (recipients ids) in
    if nat_eq counts.total 0 then plain (tick_of_outbound outbound) else record {
      state = group_state counts outbound;
      group_progress = some counts;
      group_subtitle =
          if ltb 1 counts.total
          then group_receipt_subtitle (group_state counts outbound) counts
          else none;
    }

abbrev display_in :
    Option MessageReceiptSummary
    → Option OutboundReceiptLevel
    → ReceiptTickContext
    → OutboundReceiptDisplay
display_in summary outbound (direct peer) = plain (direct_tick summary outbound peer)
display_in summary outbound (group ids) = group_display summary outbound ids

unfoldable pub select_outbound_receipt_display :
    MessagingState → String → String → ReceiptTickContext → OutboundReceiptDisplay
unfolding starts_with
select_outbound_receipt_display messaging message_id current_user_id context =
    elim (messaging.messages_by_id message_id) [
      | none ↦ plain unknown
      | some msg ↦
          if not (msg.sender_id == current_user_id)
          then plain unknown
          else if starts_with message_id "client:"
          then plain loading
          else display_in (messaging.receipts_by_message_id message_id)
              (messaging.outbound_receipt_by_message_id message_id) context
    ]

abbrev pub select_outbound_receipt_tick_state :
    MessagingState → String → String → ReceiptTickContext → ReceiptTickState
select_outbound_receipt_tick_state messaging message_id current_user_id context =
    (select_outbound_receipt_display messaging message_id current_user_id context).state
