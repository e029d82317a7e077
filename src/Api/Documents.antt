-- ===== src/Api/Documents.antt =====
-- The documents of the database: apps/messaging-service/src/data/messages/messages.collection.ts,
-- data/conversations/conversations.collection.ts and
-- data/conversationReads/conversation_reads.collection.ts beside it; of
-- data/users/users.collection.ts the fields that the modelled code reads. A date is its number of
-- milliseconds. A group conversation has no document type in the source; its flag alone is read.
use messaging_system.Common.{ℕ, String, Bool, Option, List, Dict}

pub record MessageReceiptEntry : Type 0 where
  pub delivered_at : Option ℕ
  pub seen_at : Option ℕ

pub record MessageDocument : Type 0 where
  pub id : String
  pub conversation_id : String
  pub sender_id : String
  pub body : Option String
  pub media_key : Option String
  pub encrypted_message_keys : Option (List (String × String))
  pub iv : Option (Option String)
  pub algorithm : Option (Option String)
  pub created_at : ℕ
  pub guest_data_expires_at : Option ℕ
  pub receipts_by_user_id : Option (Dict MessageReceiptEntry)

pub record ConversationDocument : Type 0 where
  pub id : String
  pub direct_pair_key : String
  pub participant_ids : List String
  pub is_group : Bool
  pub created_at : ℕ
  pub updated_at : ℕ
  pub guest_data_expires_at : Option ℕ

pub record ConversationReadDocument : Type 0 where
  pub user_id : String
  pub conversation_id : String
  pub last_read_message_id : String
  pub last_read_at : ℕ
  pub updated_at : ℕ

-- `is_guest` is `isGuest === true`.
pub record UserDocument : Type 0 where
  pub id : String
  pub is_guest : Bool
  pub email_verified : Bool
  pub refresh_token_version : Option ℕ
  pub display_name : Option String
  pub username : Option String
