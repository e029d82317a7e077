-- ===== src/Api/Paging/Tests.antt =====
-- A conversation of three messages, two of them of the same time, and the theorems at it.
use messaging_system.Common.{
  ◌≡◌, refl, suc, ℕ, ◌≤◌, String, true, false, none, some, List, [], ◌∷◌, map, All, length, empty,
  put, trim, is_empty, contains,
}
use messaging_system.Api.Documents.{MessageDocument, ConversationDocument}
use messaging_system.Api.Mongo.{World, MessageApiPayload}
use messaging_system.Api.Mongo.Table.{table}
use messaging_system.Api.Paging.{
  list_messages_for_participant, list_conversations_for_user, direct_conversation_document_to_api,
  ConversationApi,
}
use messaging_system.Api.Paging.Conversations.{conversations_of, walk-list_conversations_for_user}
use messaging_system.Api.Paging.Cursor.{
  MessageListCursor, encode_message_list_cursor, parse_message_list_cursor,
}
use messaging_system.Api.Paging.Cursor.RoundTrip.{
  parse_message_list_cursor-encode_message_list_cursor,
}
use messaging_system.Api.Paging.Keyset.{filter}
use messaging_system.Api.Paging.Memory.{
  table_queries, table_queries-IsLawful, plain_codec, plain_codec-IsLawful, insert, sort_found,
}
use messaging_system.Api.Paging.Messages.{messages_of, walk-list_messages_for_participant}
use messaging_system.Api.Paging.Walk.{walk, concat}
use messaging_system.Api.Receipts.{require_direct_conversation, lookup_conversation_by_id}
use messaging_system.Api.Send.Request.{message_document_to_api}
use messaging_system.Api.Service.{ok}

abbrev message_of : String → ℕ → MessageDocument
message_of id at = record {
  id = id;
  conversation_id = "c1";
  sender_id = "ann";
  body = some id;
  media_key = none;
  encrypted_message_keys = none;
  iv = none;
  algorithm = none;
  created_at = at;
  guest_data_expires_at = none;
  receipts_by_user_id = none;
}

abbrev conversation_of : String → ℕ → ConversationDocument
conversation_of id at = record {
  id = id;
  direct_pair_key = "ann:bob";
  participant_ids = "ann" ∷ "bob" ∷ [];
  is_group = false;
  created_at = 1;
  updated_at = at;
  guest_data_expires_at = none;
}

abbrev stored : World table
stored = record {
  messages =
      put "m1" (message_of "m1" 5)
        (put "m2" (message_of "m2" 5) (put "m3" (message_of "m3" 7) empty));
  conversations = put "c1" (conversation_of "c1" 9) (put "c2" (conversation_of "c2" 4) empty);
  reads = λ _. none;
  users = empty;
  connected = true;
  published = [];
}

found_c1 : require_direct_conversation table "c1" stored ≡ ok (conversation_of "c1" 9)
unfolding require_direct_conversation lookup_conversation_by_id trim
found_c1 = refl

bob_is_member : contains "bob" ("ann" ∷ "bob" ∷ []) ≡ true
unfolding contains
bob_is_member = refl

-- The newest first, and of the same time the greater id first.
messages_of-c1 :
    messages_of table table_queries table_queries-IsLawful plain_codec plain_codec-IsLawful stored
      "c1"
    ≡ message_of "m3" 7 ∷ message_of "m2" 5 ∷ message_of "m1" 5 ∷ []
unfolding filter sort_found insert
messages_of-c1 = refl

plain_ids :
    All
      (λ d. (trim d.id ≡ d.id) × (is_empty d.id ≡ false))
      (messages_of table table_queries table_queries-IsLawful plain_codec plain_codec-IsLawful
        stored "c1")
unfolding filter sort_found insert trim
plain_ids = ((refl, refl), ((refl, refl), ((refl, refl), tt)))

walk-list_messages_for_participant_example :
    (pages : List (List MessageApiPayload)) × (walk
        (λ cursor.
          list_messages_for_participant table table_queries plain_codec "bob" "c1" cursor 2 stored)
        (suc (
          length (
            messages_of table table_queries table_queries-IsLawful plain_codec plain_codec-IsLawful
              stored "c1")))
        none
      ≡ some pages)
    × (concat pages
        ≡ map message_document_to_api (
            messages_of table table_queries table_queries-IsLawful plain_codec plain_codec-IsLawful
              stored "c1"))
    × All (λ items. length items ≤ 2) pages
walk-list_messages_for_participant_example =
    walk-list_messages_for_participant table table_queries table_queries-IsLawful plain_codec
      plain_codec-IsLawful stored "bob" "c1" 2 (conversation_of "c1" 9) found_c1 bob_is_member
      plain_ids

plain_conversation_ids :
    All
      (λ d. (trim d.id ≡ d.id) × (is_empty d.id ≡ false))
      (conversations_of table table_queries table_queries-IsLawful plain_codec plain_codec-IsLawful
        stored "ann")
unfolding filter sort_found insert trim contains
plain_conversation_ids = ((refl, refl), ((refl, refl), tt))

walk-list_conversations_for_user_example :
    (pages : List (List ConversationApi)) × (walk
        (λ cursor.
          list_conversations_for_user table table_queries plain_codec "ann" cursor 1 stored)
        (suc (
          length (
            conversations_of table table_queries table_queries-IsLawful plain_codec
              plain_codec-IsLawful stored "ann")))
        none
      ≡ some pages)
    × (concat pages
        ≡ map (direct_conversation_document_to_api "ann") (
            conversations_of table table_queries table_queries-IsLawful plain_codec
              plain_codec-IsLawful stored "ann"))
    × All (λ items. length items ≤ 1) pages
walk-list_conversations_for_user_example =
    walk-list_conversations_for_user table table_queries table_queries-IsLawful plain_codec
      plain_codec-IsLawful stored "ann" 1 plain_conversation_ids

abbrev cursor_m2 : MessageListCursor
cursor_m2 = record { created_at = 5; id = "m2" }

m2_is_trimmed : trim "m2" ≡ "m2"
unfolding trim
m2_is_trimmed = refl

parse_message_list_cursor-encode_message_list_cursor_example :
    parse_message_list_cursor plain_codec (encode_message_list_cursor plain_codec cursor_m2)
    ≡ ok cursor_m2
parse_message_list_cursor-encode_message_list_cursor_example =
    parse_message_list_cursor-encode_message_list_cursor plain_codec plain_codec-IsLawful cursor_m2
      m2_is_trimmed refl
