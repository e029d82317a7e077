-- ===== src/Api/Receipts/Tests.antt =====
-- The receipt handlers at concrete requests.
use messaging_system.Common.{
  ap, sym, ◌∙◌, ◌||◌, inl, inr, Option-cases, ◌≡◌, ◌≢◌, refl, ℕ, ◌≤◌, String, Bool, true, false,
  Option, none, some, List, [], ◌∷◌, ◌++◌, map, Dict, empty, put, if◌then◌else◌, ◌==◌, arith,
  eq_iff, eq_refl, trim, contains, is_some, ◌&&◌,
}
use messaging_system.Api.Service.{ok}
use messaging_system.Api.Documents.{MessageDocument, ConversationDocument, ConversationReadDocument}
use messaging_system.Api.Mongo.{World, conversation_read}
use messaging_system.Api.Mongo.Table.{user_of, table, table-IsLawful, both}
use messaging_system.Api.Receipts.{
  ReceiptRequest, process_message_delivered, process_message_read, process_conversation_read,
}
use messaging_system.Api.Receipts.Laws.{receipt_to, IsAuthorized, IsGuarded, process-IsGuarded}
use messaging_system.Api.Receipts.Delivery.{
  delivery_time, IsDelivered, process_message_delivered-IsDelivered,
  process_message_delivered-idempotent,
}
use messaging_system.Api.Receipts.Cursor.{IsAt, process_conversation_read-publishes}

abbrev hello : MessageDocument
hello = record {
  id = "m";
  conversation_id = "c";
  sender_id = "ann";
  body = some "hello";
  media_key = none;
  encrypted_message_keys = none;
  iv = none;
  algorithm = none;
  created_at = 1;
  guest_data_expires_at = none;
  receipts_by_user_id = none;
}

abbrev chat : ConversationDocument
chat = record {
  id = "c";
  direct_pair_key = "ann|bob";
  participant_ids = "ann" ∷ "bob" ∷ [];
  is_group = false;
  created_at = 0;
  updated_at = 1;
  guest_data_expires_at = none;
}

abbrev cursor : ConversationReadDocument
cursor = record {
  user_id = "bob";
  conversation_id = "c";
  last_read_message_id = "m";
  last_read_at = 5;
  updated_at = 6;
}

-- Bob has read the conversation up to the message.
abbrev start : World table
start = record {
  messages = put "m" hello empty;
  conversations = put "c" chat empty;
  reads = λ k. if both ("bob", "c") k then some cursor else none;
  users = λ id. if id == "ann" || id == "bob" then some (user_of id true) else none;
  connected = true;
  published = [];
}

abbrev request : ReceiptRequest
request = record {
  actor_user_id = "bob";
  message_id = "m";
  conversation_id = "c";
  origin_socket_id = some "s1";
}

trimmed_m : trim "m" ≡ "m"
unfolding messaging_system.Common.trim
trimmed_m = refl

entitled : IsAuthorized table request start chat
unfolding messaging_system.Common.trim contains
entitled = record {
  named = refl;
  found = refl;
  is_direct = refl;
  participant = refl;
  message = hello;
  message_found = refl;
  in_conversation = refl;
  of_other = ground (arith, eq_iff "ann" "bob");
}

process-IsGuarded_example :
    IsGuarded table request start (process_message_delivered table request 7 start)
    × IsGuarded table request start (process_message_read table request 7 8 start)
    × IsGuarded table request start (process_conversation_read table request 7 8 start)
process-IsGuarded_example = process-IsGuarded table request 7 8 start

process_message_delivered-IsDelivered_example :
    IsDelivered table table-IsLawful request 7 start chat
      (delivery_time entitled.message "bob")
      (process_message_delivered table request 7 start)
process_message_delivered-IsDelivered_example =
    process_message_delivered-IsDelivered table table-IsLawful request 7 start chat entitled
      trimmed_m refl

process_message_delivered-idempotent_example :
    process_message_delivered table request 5 (process_message_delivered table request 7 start).1
    ≡ (ok tt, (process_message_delivered table request 7 start).1)
process_message_delivered-idempotent_example =
    process_message_delivered-idempotent table table-IsLawful request 7 5 start chat entitled
      trimmed_m refl (omega arith)

written_before :
    (d : ConversationReadDocument)
    → table.reads.find_one ("bob", "c") start.reads ≡ some d
    → d.updated_at ≢ 9
written_before d e = ground arith

process_conversation_read-publishes_example :
    let result = process_conversation_read table request 8 9 start in
    (result.0 ≡ ok tt)
    × (result.1.messages ≡ start.messages)
    × (result.1.published
        ≡ start.published ++ map (receipt_to request conversation_read 8) chat.participant_ids)
    × ((d : ConversationReadDocument) × (table.reads.find_one ("bob", "c") result.1.reads ≡ some d)
        × IsAt table table-IsLawful request 8 9 d)
process_conversation_read-publishes_example =
    process_conversation_read-publishes table table-IsLawful request 8 9 start chat entitled refl
      written_before
