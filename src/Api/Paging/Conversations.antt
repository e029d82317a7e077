-- ===== src/Api/Paging/Conversations.antt =====
-- The walk over the conversations of a user.
use mathlib.Core.Path.{subst}
use messaging_system.Common.{
  ◌≡◌, refl, sym, ap, ◌∙◌, ℕ, suc, ◌+◌, ◌≤◌, min, max, String, Bool, true, Option, none, some, List,
  map, contains, ◌&&◌, not, arith, All, length,
}
use messaging_system.Api.Documents.{ConversationDocument}
use messaging_system.Api.Mongo.{Database, World}
use messaging_system.Api.Paging.{
  cut, cursor_boundary, list_cap, build_participant_conversations_filter,
  list_direct_conversations_for_participant, list_conversations_for_user,
  direct_conversation_document_to_api, ConversationApi, conversation_cursor,
}
use messaging_system.Api.Paging.Cursor.{
  Codec, IsLawful, ConversationListCursor, parse_conversation_list_cursor,
}
use messaging_system.Api.Paging.Cursor.RoundTrip.{
  encode_conversation_list_cursor_nonblank,
  parse_conversation_list_cursor-encode_conversation_list_cursor,
}
use messaging_system.Api.Paging.Find.{Queries, IsLawfulQueries, conversation_key}
use messaging_system.Api.Paging.Keyset.{
  take, is_older, rest_after, IsNewestFirst-filter, filter-filter, filter, IsNewestFirst,
}
use messaging_system.Api.Paging.Serving.{IsPlainId, Serves_lem, boundary_key, At, render}
use messaging_system.Api.Paging.Walk.{walk, concat, walk_lem}
use messaging_system.Api.Service.{ok, ◌>>=◌}

module _ (db : Database) (queries : Queries db) (lawful : IsLawfulQueries db queries)
    (codec : Codec) (codec_lawful : IsLawful codec) (w : World db) where
  abbrev conversation_cursor_key : ConversationListCursor → ℕ × String
  conversation_cursor_key c = (c.updated_at, c.id)

  abbrev listed_for : String → ConversationDocument → Bool
  listed_for user_id d = contains user_id d.participant_ids && not d.is_group

  reads_conversation :
      (d : ConversationDocument)
      → IsPlainId d.id
      → (c : ConversationListCursor) × (cursor_boundary
            (parse_conversation_list_cursor codec)
            (some (conversation_cursor db queries codec d))
          ≡ ok (some c))
        × (conversation_cursor_key c ≡ conversation_key d)
  unfolding conversation_cursor ◌>>=◌
  reads_conversation d plain =
      let cursor : ConversationListCursor = record { updated_at = d.updated_at; id = d.id } in
      (
        cursor,
        rw
            (
              encode_conversation_list_cursor_nonblank codec codec_lawful cursor,
              parse_conversation_list_cursor-encode_conversation_list_cursor codec codec_lawful
                  cursor plain.0 plain.1,
            )
            refl,
        refl,
      )

  -- The direct conversations of a user, in the order of the sort.
  abbrev pub conversations_of : String → List ConversationDocument
  conversations_of user_id = queries.find_conversations (listed_for user_id) w.conversations

  find_conversations_lem :
      (user_id : String) (b : Option ConversationListCursor)
      → queries.find_conversations
          (build_participant_conversations_filter user_id b)
          w.conversations
        ≡ rest_after conversation_key
            (boundary_key conversation_cursor_key b)
            (conversations_of user_id)
  find_conversations_lem user_id none = refl
  find_conversations_lem user_id (some c) =
      lawful.conversations-filter (build_participant_conversations_filter user_id (some c))
        w.conversations
      ∙ filter-filter (λ d. is_older (conversation_cursor_key c) (conversation_key d))
          (listed_for user_id) (queries.find_conversations (λ _. true) w.conversations)
      ∙ ap (filter (λ d. is_older (conversation_cursor_key c) (conversation_key d)))
          (sym (lawful.conversations-filter (listed_for user_id) w.conversations))

  conversations_of-IsNewestFirst :
      (user_id : String) → IsNewestFirst conversation_key (conversations_of user_id)
  conversations_of-IsNewestFirst user_id =
      subst (IsNewestFirst conversation_key)
        (sym (lawful.conversations-filter (listed_for user_id) w.conversations))
        (IsNewestFirst-filter conversation_key (listed_for user_id)
          (queries.find_conversations (λ _. true) w.conversations)
          (lawful.conversations-IsNewestFirst w.conversations))

  list_conversations-answers :
      (user_id : String) (limit : ℕ) (cursor : Option String) (b : Option ConversationListCursor)
      → cursor_boundary (parse_conversation_list_cursor codec) cursor ≡ ok b
      → list_conversations_for_user db queries codec user_id cursor limit w
        ≡ render
            (direct_conversation_document_to_api user_id)
            (conversation_cursor db queries codec)
            (cut (list_cap limit) (
              take (list_cap limit + 1) (
                rest_after conversation_key
                  (boundary_key conversation_cursor_key b)
                  (conversations_of user_id))))
  unfolding list_conversations_for_user list_direct_conversations_for_participant ◌>>=◌
  list_conversations-answers user_id limit cursor b parsed =
      rw (parsed, find_conversations_lem user_id b) refl

  -- A client that starts without a cursor and follows the cursors that it is handed reads every
  -- direct conversation of the user once, the most recently active first, in pages of at most the
  -- limit (between 1 and 100), and comes to a page without a cursor after at most as many requests as
  -- there are conversations, and one; when the stored ids are not blank and have no white space around
  -- them.
  pub walk-list_conversations_for_user :
      (user_id : String) (limit : ℕ)
      → All (λ d. IsPlainId d.id) (conversations_of user_id)
      → (pages : List (List ConversationApi)) × (walk
            (λ cursor. list_conversations_for_user db queries codec user_id cursor limit w)
            (suc (length (conversations_of user_id)))
            none
          ≡ some pages)
        × (concat pages
            ≡ map (direct_conversation_document_to_api user_id) (conversations_of user_id))
        × All (λ items. length items ≤ min (max 1 limit) 100) pages
  walk-list_conversations_for_user user_id limit plain =
      walk_lem (λ cursor. list_conversations_for_user db queries codec user_id cursor limit w)
        (direct_conversation_document_to_api user_id) (list_cap limit)
        (At conversation_key conversation_cursor_key (parse_conversation_list_cursor codec)
          (conversations_of user_id))
        (omega arith)
        (Serves_lem conversation_key (direct_conversation_document_to_api user_id)
          conversation_cursor_key (parse_conversation_list_cursor codec)
          (conversation_cursor db queries codec) (λ d. IsPlainId d.id) reads_conversation
          (list_cap limit) (conversations_of user_id) (conversations_of-IsNewestFirst user_id) plain
          (λ cursor. list_conversations_for_user db queries codec user_id cursor limit w)
          (omega arith) (list_conversations-answers user_id limit))
        (suc (length (conversations_of user_id))) none (conversations_of user_id) (none, refl, refl)
        (omega arith)
