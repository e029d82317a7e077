-- ===== src/Web/ReceiptTicks/Tests.antt =====
-- Concrete ticks of a group message, and the theorem on them at a concrete input.
use messaging_system.Common.{
  ◌≡◌, refl, ◌↔◌, String, true, false, none, some, List, [], ◌∷◌, put, Dict, empty, trim,
}
use messaging_system.Web.Messaging.State.{
  MessagingState, StoredMessage, MessageReceiptEntry, stored, initial_state,
}
use messaging_system.Web.Messaging.Merge.{dedupe_ids_stable}
use messaging_system.Web.ReceiptTicks.{
  seen, delivered, group, decimal, recipients, select_outbound_receipt_tick_state,
  select_outbound_receipt_display, group_display, group_receipt_subtitle,
}
use messaging_system.Web.ReceiptTicks.Laws.{
  AllSeen, AllDelivered, select_outbound_receipt_tick_state-group,
}

decimals : decimal 305 ≡ "305"
unfolding decimal
decimals = refl

abbrev mine : StoredMessage
mine = stored (record {
  id = "m";
  conversation_id = "c";
  sender_id = "me";
  body = some "hi";
  media_key = none;
  encrypted_message_keys = none;
  iv = none;
  algorithm = none;
  created_at = "t";
})

abbrev entries : Dict MessageReceiptEntry
entries =
    put "a" (record { delivered_at = some "t1"; seen_at = some "t2" })
      (put "b" (record { delivered_at = some "t1"; seen_at = none }) empty)

abbrev thread : MessagingState
thread = record initial_state {
  messages_by_id = put "m" mine empty;
  receipts_by_message_id =
      put "m"
        (record {
          message_id = "m";
          conversation_id = "c";
          created_at = "t";
          receipts_by_user_id = some entries;
        })
        empty;
}

abbrev members : List String
members = "a" ∷ " b " ∷ "a" ∷ " " ∷ []

members_display : select_outbound_receipt_display thread "m" "me" (group members) ≡ record {
  state = delivered;
  group_progress = some (record { delivered = 2; seen = 1; total = 2 });
  group_subtitle = some "1/2 read";
}
unfolding select_outbound_receipt_display group_display recipients group_receipt_subtitle decimal
    dedupe_ids_stable messaging_system.Common.trim
members_display = refl

two_members : messaging_system.Common.is_nil (recipients members) ≡ false
unfolding recipients dedupe_ids_stable messaging_system.Common.trim
two_members = refl

own_id : messaging_system.Common.starts_with "m" "client:" ≡ false
unfolding messaging_system.Common.starts_with
own_id = refl

select_outbound_receipt_tick_state-group_example :
    ((select_outbound_receipt_tick_state thread "m" "me" (group members) ≡ seen)
      ↔ AllSeen (thread.receipts_by_message_id "m") (recipients members))
    × ((select_outbound_receipt_tick_state thread "m" "me" (group members) ≡ delivered) ↔ (
        AllDelivered (thread.receipts_by_message_id "m") (recipients members)
        × ¬ (AllSeen (thread.receipts_by_message_id "m") (recipients members))))
select_outbound_receipt_tick_state-group_example =
    select_outbound_receipt_tick_state-group thread "m" "me" mine members refl refl own_id
      two_members
