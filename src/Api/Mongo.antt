-- ===== src/Api/Mongo.antt =====
-- What the service relies on of the MongoDB driver, and the state that its functions change. A
-- collection is a parameter: `findOne` and `updateOne` by the fields that make a document unique,
-- and `updateOne` with `upsert: true`, which also tells whether it inserted or modified a document.
-- An update is given as the function that its operators describe.
pub mod Table
use messaging_system.Common.{◌≡◌, ◌≢◌, ℕ, String, Bool, Option, none, some, List}
use messaging_system.Api.Documents.{
  MessageDocument, ConversationDocument, ConversationReadDocument, UserDocument,
}

pub record Collection (Key : Type 0) (Doc : Type 0) : Type 1 where
  pub State : Type 0
  pub find_one : Key → State → Option Doc
  pub update_one : Key → (Doc → Doc) → State → State
  -- `none` is the duplicate key error
  pub insert_one : Doc → State → Option State
  pub upsert_one : Key → (Option Doc → Doc) → State → State
  -- `upsertedCount` and `modifiedCount` of that upsert
  pub upserted_count : Key → (Option Doc → Doc) → State → ℕ
  pub modified_count : Key → (Option Doc → Doc) → State → ℕ

-- The documented behaviour, for updates that leave the unique fields as they are.
pub record IsLawful {Key : Type 0} {Doc : Type 0} (key : Doc → Key) (c : Collection Key Doc)
    : Type 0 where
  pub find-update :
      (k : Key) (f : Doc → Doc) (s : c.State) (d : Doc)
      → ((e : Doc) → key (f e) ≡ key e)
      → c.find_one k s ≡ some d
      → c.find_one k (c.update_one k f s) ≡ some (f d)
  pub find-update_other :
      (j k : Key) (f : Doc → Doc) (s : c.State)
      → ((e : Doc) → key (f e) ≡ key e)
      → j ≢ k
      → c.find_one j (c.update_one k f s) ≡ c.find_one j s
  pub find-insert :
      (d : Doc) (s t : c.State) → c.insert_one d s ≡ some t → c.find_one (key d) t ≡ some d
  pub find-upsert :
      (k : Key) (f : Option Doc → Doc) (s : c.State)
      → key (f none) ≡ k
      → ((d : Doc) → key (f (some d)) ≡ key d)
      → c.find_one k (c.upsert_one k f s) ≡ some (f (c.find_one k s))
  pub upserted :
      (k : Key) (f : Option Doc → Doc) (s : c.State)
      → c.find_one k s ≡ none
      → c.upserted_count k f s ≡ 1
  pub modified :
      (k : Key) (f : Option Doc → Doc) (s : c.State) (d : Doc)
      → c.find_one k s ≡ some d
      → f (some d) ≢ d
      → c.modified_count k f s ≡ 1

pub record Database : Type 1 where
  pub messages : Collection String MessageDocument
  pub conversations : Collection String ConversationDocument
  pub reads : Collection (String × String) ConversationReadDocument
  pub users : Collection String UserDocument
  -- `findOne({ directPairKey, isGroup: false })`
  pub find_direct : String → conversations.State → Option ConversationDocument

abbrev pub read_key : ConversationReadDocument → String × String
read_key d = (d.user_id, d.conversation_id)

pub record IsLawfulDatabase (db : Database) : Type 0 where
  pub messages : IsLawful (λ (d : MessageDocument). d.id) db.messages
  pub reads : IsLawful read_key db.reads

pub data ReceiptSocketEvent : Type 0 where
  message_delivered message_read conversation_read : ReceiptSocketEvent

pub record ReceiptFanoutPayload : Type 0 where
  pub message_id : String
  pub conversation_id : String
  pub user_id : String
  pub at : ℕ

-- `MessageApiPayload`
pub record MessageApiPayload : Type 0 where
  pub id : String
  pub conversation_id : String
  pub sender_id : String
  pub body : Option String
  pub media_key : Option String
  pub created_at : ℕ
  pub encrypted_message_keys : Option (List (String × String))
  pub iv : Option (Option String)
  pub algorithm : Option (Option String)

-- `CallIncomingKindNotificationPayload`; its id and time are random and of the clock, and left out.
pub record CallIncomingPayload : Type 0 where
  pub is_video : Bool
  pub call_id : String
  pub caller_user_id : String
  pub caller_display_name : Option String
  pub conversation_id : Option String

pub data Payload : Type 0 where
  call_incoming : CallIncomingPayload → Payload
  receipt : ReceiptSocketEvent → ReceiptFanoutPayload → Payload
  message_api : MessageApiPayload → Payload

-- What `ch.publish` was handed.
pub record Published : Type 0 where
  pub routing_key : String
  pub payload : Payload
  pub skip_socket_id : Option String

-- The collections, whether there is a broker channel, and what was published, the oldest first.
pub record World (db : Database) : Type 0 where
  pub messages : db.messages.State
  pub conversations : db.conversations.State
  pub reads : db.reads.State
  pub users : db.users.State
  pub connected : Bool
  pub published : List Published
