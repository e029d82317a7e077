-- ===== src/Api/Paging.antt =====
-- Paging of messages and conversations: under apps/messaging-service/src,
-- validation/limitQuery.ts, `listMessagesByConversation` of data/messages/repo.ts,
-- data/messages/listMessages.ts, `listDirectConversationsForParticipant` of
-- data/conversations/repo.ts, data/conversations/listConversationsForUser.ts and
-- data/conversations/conversationApiShape.ts. The projections name every field that is read, so whole documents stand for the rows. A date in an
-- answer is its number of milliseconds.
pub mod Order
pub mod Keyset
pub mod Find
pub mod Cursor
pub mod Cut
pub mod Walk
pub mod Serving
pub mod Messages
pub mod Conversations
mod Memory
mod Tests
use messaging_system.Common.{
  ℕ, ◌+◌, min, max, String, Bool, true, false, Option, none, some, List, [], ◌∷◌, map, not, ◌&&◌,
  ltb, trim, is_empty, contains, length, if◌then◌else◌, ◌==◌,
}
use messaging_system.Api.Documents.{MessageDocument, ConversationDocument}
use messaging_system.Api.Mongo.{Database, World, MessageApiPayload}
use messaging_system.Api.Paging.Cursor.{
  Codec, MessageListCursor, ConversationListCursor, encode_message_list_cursor,
  parse_message_list_cursor, encode_conversation_list_cursor, parse_conversation_list_cursor,
}
use messaging_system.Api.Paging.Keyset.{take, is_older, last}
use messaging_system.Api.Paging.Find.{Queries}
use messaging_system.Api.Receipts.{require_direct_conversation, assert_participant}
use messaging_system.Api.Send.Request.{message_document_to_api}
use messaging_system.Api.Service.{Outcome, ok, failed, ◌>>=◌}

abbrev pub default_list_limit : ℕ
default_list_limit = 20

abbrev pub max_list_limit : ℕ
max_list_limit = 100

-- An omitted limit, or one that is not a number, is `none`; another is given truncated, and a
-- negative one as 0, which also gives 1.
unfoldable pub resolve_list_limit : Option ℕ → ℕ
resolve_list_limit none = default_list_limit
resolve_list_limit (some n) =
    if ltb n 1 then 1 else if ltb max_list_limit n then max_list_limit else n

abbrev pub list_cap : ℕ → ℕ
list_cap limit = min (max 1 limit) max_list_limit

pub record Page {ℓ} (A : Type ℓ) : Type ℓ where
  pub items : List A
  pub next_cursor : Option String
  pub has_more : Bool

-- One row more than the page was asked for, to see whether there is another page.
abbrev pub cut {ℓ} : {A : Type ℓ} → ℕ → List A → List A × Bool
cut page_cap docs =
    let has_more = ltb page_cap (length docs) in
    (if has_more then take page_cap docs else docs, has_more)

abbrev pub build_conversation_messages_filter :
    String → Option MessageListCursor → MessageDocument → Bool
build_conversation_messages_filter conversation_id none doc = doc.conversation_id == conversation_id
build_conversation_messages_filter conversation_id (some c) doc =
    doc.conversation_id == conversation_id && is_older (c.created_at, c.id) (doc.created_at, doc.id)

abbrev pub build_participant_conversations_filter :
    String → Option ConversationListCursor → ConversationDocument → Bool
build_participant_conversations_filter user_id none doc =
    contains user_id doc.participant_ids && not doc.is_group
build_participant_conversations_filter user_id (some c) doc =
    contains user_id doc.participant_ids
    && not doc.is_group
    && is_older (c.updated_at, c.id) (doc.updated_at, doc.id)

-- `find((id) => id !== currentUserId) ?? null`
unfoldable pub peer_user_id : String → List String → Option String
peer_user_id current_user_id [] = none
peer_user_id current_user_id (id ∷ ids) =
    let rest = peer_user_id current_user_id ids in
    if not (id == current_user_id) then some id else rest

pub record ConversationApi : Type 0 where
  pub id : String
  pub title : Option String
  pub is_group : Bool
  pub peer_user_id : Option String
  pub updated_at : ℕ

unfoldable pub direct_conversation_document_to_api : String → ConversationDocument → ConversationApi
direct_conversation_document_to_api current_user_id doc = record {
  id = doc.id;
  title = none;
  is_group = false;
  peer_user_id = peer_user_id current_user_id doc.participant_ids;
  updated_at = doc.updated_at;
}

-- A missing or blank `cursor` asks for the first page.
abbrev pub cursor_boundary {ℓ} :
    {A : Type ℓ} → (String → Outcome A) → Option String → Outcome (Option A)
cursor_boundary parse none = ok none
cursor_boundary parse (some raw) =
    if is_empty (trim raw) then ok none else (parse raw >>= λ c. ok (some c))

-- `hasMore && items.length > 0 ? encode(items[items.length - 1]) : null`
abbrev pub next_of {ℓ} : {A : Type ℓ} → (A → String) → List A × Bool → Option String
next_of encode (items, false) = none
next_of encode (items, true) = elim (last items) [ none ↦ none | some item ↦ some (encode item) ]

module _ (db : Database) (queries : Queries db) where
  unfoldable pub list_messages_by_conversation :
      String → ℕ → Option MessageListCursor → World db → List MessageDocument × Bool
  list_messages_by_conversation conversation_id limit cursor w =
      let page_cap = list_cap limit in
      let filter = build_conversation_messages_filter conversation_id cursor in
      cut page_cap (take (page_cap + 1) (queries.find_messages filter w.messages))

  unfoldable pub list_direct_conversations_for_participant :
      String → ℕ → Option ConversationListCursor → World db → List ConversationDocument × Bool
  list_direct_conversations_for_participant user_id limit cursor w =
      let page_cap = list_cap limit in
      let filter = build_participant_conversations_filter user_id cursor in
      cut page_cap (take (page_cap + 1) (queries.find_conversations filter w.conversations))

  module _ (codec : Codec) where
    message_cursor : MessageDocument → String
    message_cursor doc =
        encode_message_list_cursor codec (record { created_at = doc.created_at; id = doc.id })

    conversation_cursor : ConversationDocument → String
    conversation_cursor doc =
        encode_conversation_list_cursor codec (record { updated_at = doc.updated_at; id = doc.id })

    unfoldable pub list_messages_for_participant :
        String → String → Option String → ℕ → World db → Outcome (Page MessageApiPayload)
    unfolding message_cursor
    list_messages_for_participant user_id conversation_id cursor limit w =
        cursor_boundary (parse_message_list_cursor codec) cursor >>= λ boundary.
        require_direct_conversation db conversation_id w >>= λ conv.
        assert_participant db user_id conv >>= λ _.
        let page = list_messages_by_conversation conv.id limit boundary w in
        ok (record {
          items = map message_document_to_api page.0;
          next_cursor = next_of message_cursor page;
          has_more = page.1;
        })

    unfoldable pub list_conversations_for_user :
        String → Option String → ℕ → World db → Outcome (Page ConversationApi)
    unfolding conversation_cursor
    list_conversations_for_user user_id cursor limit w =
        cursor_boundary (parse_conversation_list_cursor codec) cursor >>= λ boundary.
        let page = list_direct_conversations_for_participant user_id limit boundary w in
        ok (record {
          items = map (direct_conversation_document_to_api user_id) page.0;
          next_cursor = next_of conversation_cursor page;
          has_more = page.1;
        })
