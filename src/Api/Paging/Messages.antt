-- ===== src/Api/Paging/Messages.antt =====
-- The walk over the messages of a conversation.
use mathlib.Core.Path.{subst}
use messaging_system.Common.{
  ◌≡◌, refl, sym, ap, ◌∙◌, ℕ, suc, ◌+◌, ◌≤◌, min, max, String, Bool, true, Option, none, some, List,
  map, contains, ◌==◌, arith, All, length,
}
use messaging_system.Api.Documents.{MessageDocument, ConversationDocument}
use messaging_system.Api.Mongo.{Database, World, MessageApiPayload}
use messaging_system.Api.Paging.{
  cut, cursor_boundary, list_cap, build_conversation_messages_filter, list_messages_by_conversation,
  list_messages_for_participant, message_cursor,
}
use messaging_system.Api.Paging.Cursor.{
  Codec, IsLawful, MessageListCursor, parse_message_list_cursor,
}
use messaging_system.Api.Paging.Cursor.RoundTrip.{
  encode_message_list_cursor_nonblank, parse_message_list_cursor-encode_message_list_cursor,
}
use messaging_system.Api.Paging.Find.{Queries, IsLawfulQueries, message_key}
use messaging_system.Api.Paging.Keyset.{
  take, is_older, rest_after, IsNewestFirst-filter, filter-filter, filter, IsNewestFirst,
}
use messaging_system.Api.Paging.Serving.{IsPlainId, Serves_lem, boundary_key, At, render}
use messaging_system.Api.Paging.Walk.{walk, concat, walk_lem}
use messaging_system.Api.Receipts.{require_direct_conversation, assert_participant}
use messaging_system.Api.Send.Request.{message_document_to_api}
use messaging_system.Api.Service.{ok, ◌>>=◌}

module _ (db : Database) (queries : Queries db) (lawful : IsLawfulQueries db queries)
    (codec : Codec) (codec_lawful : IsLawful codec) (w : World db) where
  abbrev message_cursor_key : MessageListCursor → ℕ × String
  message_cursor_key c = (c.created_at, c.id)

  reads_message :
      (d : MessageDocument)
      → IsPlainId d.id
      → (c : MessageListCursor) × (cursor_boundary
            (parse_message_list_cursor codec)
            (some (message_cursor db queries codec d))
          ≡ ok (some c))
        × (message_cursor_key c ≡ message_key d)
  unfolding message_cursor ◌>>=◌
  reads_message d plain =
      let cursor : MessageListCursor = record { created_at = d.created_at; id = d.id } in
      (
        cursor,
        rw
            (
              encode_message_list_cursor_nonblank codec codec_lawful cursor,
              parse_message_list_cursor-encode_message_list_cursor codec codec_lawful cursor plain.0
                  plain.1,
            )
            refl,
        refl,
      )

  find_messages_lem :
      (conversation_id : String) (b : Option MessageListCursor)
      → queries.find_messages (build_conversation_messages_filter conversation_id b) w.messages
        ≡ rest_after message_key
            (boundary_key message_cursor_key b)
            (queries.find_messages (λ d. d.conversation_id == conversation_id) w.messages)
  find_messages_lem conversation_id none = refl
  find_messages_lem conversation_id (some c) =
      lawful.messages-filter (build_conversation_messages_filter conversation_id (some c))
        w.messages
      ∙ filter-filter (λ d. is_older (message_cursor_key c) (message_key d))
          (λ d. d.conversation_id == conversation_id) (queries.find_messages (λ _. true) w.messages)
      ∙ ap (filter (λ d. is_older (message_cursor_key c) (message_key d)))
          (sym (lawful.messages-filter (λ d. d.conversation_id == conversation_id) w.messages))

  abbrev pub messages_of : String → List MessageDocument
  messages_of conversation_id =
      queries.find_messages (λ d. d.conversation_id == conversation_id) w.messages

  messages_of-IsNewestFirst :
      (conversation_id : String) → IsNewestFirst message_key (messages_of conversation_id)
  messages_of-IsNewestFirst conversation_id =
      let mine : MessageDocument → Bool = λ d. d.conversation_id == conversation_id in
      subst (IsNewestFirst message_key) (sym (lawful.messages-filter mine w.messages)) (
        IsNewestFirst-filter message_key mine (queries.find_messages (λ _. true) w.messages)
          (lawful.messages-IsNewestFirst w.messages))

  list_messages-answers :
      (user_id conversation_id : String) (limit : ℕ) (conv : ConversationDocument)
      → require_direct_conversation db conversation_id w ≡ ok conv
      → contains user_id conv.participant_ids ≡ true
      → (cursor : Option String) (b : Option MessageListCursor)
      → cursor_boundary (parse_message_list_cursor codec) cursor ≡ ok b
      → list_messages_for_participant db queries codec user_id conversation_id cursor limit w
        ≡ render message_document_to_api (message_cursor db queries codec) (
            cut (list_cap limit) (
              take
                (list_cap limit + 1)
                (rest_after message_key (boundary_key message_cursor_key b) (messages_of conv.id))))
  unfolding list_messages_for_participant list_messages_by_conversation assert_participant ◌>>=◌
  list_messages-answers user_id conversation_id limit conv found member cursor b parsed =
      rw (parsed, found, member, find_messages_lem conv.id b) refl

  -- In a direct conversation of the user's, a client that starts without a cursor and follows the
  -- cursors that it is handed reads every message of the conversation once, newest first, in pages
  -- of at most the limit (between 1 and 100), and comes to a page without a cursor after at most as
  -- many requests as there are messages, and one; when the stored ids are not blank and have no white
  -- space around them.
  pub walk-list_messages_for_participant :
      (user_id conversation_id : String) (limit : ℕ) (conv : ConversationDocument)
      → require_direct_conversation db conversation_id w ≡ ok conv
      → contains user_id conv.participant_ids ≡ true
      → All (λ d. IsPlainId d.id) (messages_of conv.id)
      → (pages : List (List MessageApiPayload)) × (walk
            (λ cursor.
              list_messages_for_participant db queries codec user_id conversation_id cursor limit w)
            (suc (length (messages_of conv.id)))
            none
          ≡ some pages)
        × (concat pages ≡ map message_document_to_api (messages_of conv.id))
        × All (λ items. length items ≤ min (max 1 limit) 100) pages
  walk-list_messages_for_participant user_id conversation_id limit conv found member plain =
      walk_lem
        (λ cursor.
          list_messages_for_participant db queries codec user_id conversation_id cursor limit w)
        message_document_to_api (list_cap limit)
        (At message_key message_cursor_key (parse_message_list_cursor codec) (messages_of conv.id))
        (omega arith)
        (Serves_lem message_key message_document_to_api message_cursor_key
          (parse_message_list_cursor codec) (message_cursor db queries codec) (λ d. IsPlainId d.id)
          reads_message (list_cap limit) (messages_of conv.id) (messages_of-IsNewestFirst conv.id)
          plain
          (λ cursor.
            list_messages_for_participant db queries codec user_id conversation_id cursor limit w)
          (omega arith) (list_messages-answers user_id conversation_id limit conv found member))
        (suc (length (messages_of conv.id))) none (messages_of conv.id) (none, refl, refl)
        (omega arith)
