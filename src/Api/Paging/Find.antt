-- ===== src/Api/Paging/Find.antt =====
-- What paging relies on of `find` with a filter and a sort: under apps/messaging-service/src/data,
-- the queries of messages/repo.ts and conversations/repo.ts.
use messaging_system.Common.{◌≡◌, ℕ, String, Bool, true, List}
use messaging_system.Api.Documents.{MessageDocument, ConversationDocument}
use messaging_system.Api.Mongo.{Database}
use messaging_system.Api.Paging.Keyset.{filter, IsNewestFirst}

-- `find(filter).sort({ createdAt: -1, id: -1 })`, and the same by `updatedAt`; `limit` takes the first.
pub record Queries (db : Database) : Type 0 where
  pub find_messages : (MessageDocument → Bool) → db.messages.State → List MessageDocument
  pub find_conversations :
      (ConversationDocument → Bool) → db.conversations.State → List ConversationDocument

abbrev pub message_key : MessageDocument → ℕ × String
message_key d = (d.created_at, d.id)

abbrev pub conversation_key : ConversationDocument → ℕ × String
conversation_key d = (d.updated_at, d.id)

-- A query returns the documents that match, in the order of the sort; ids are unique.
pub record IsLawfulQueries (db : Database) (queries : Queries db) : Type 0 where
  pub messages-filter :
      (p : MessageDocument → Bool) (s : db.messages.State)
      → queries.find_messages p s ≡ filter p (queries.find_messages (λ _. true) s)
  pub messages-IsNewestFirst :
      (s : db.messages.State) → IsNewestFirst message_key (queries.find_messages (λ _. true) s)
  pub conversations-filter :
      (p : ConversationDocument → Bool) (s : db.conversations.State)
      → queries.find_conversations p s ≡ filter p (queries.find_conversations (λ _. true) s)
  pub conversations-IsNewestFirst :
      (s : db.conversations.State)
      → IsNewestFirst conversation_key (queries.find_conversations (λ _. true) s)
