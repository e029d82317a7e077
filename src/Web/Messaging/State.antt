-- ===== src/Web/Messaging/State.antt =====
-- The types and the initial state of
-- apps/web-client/src/modules/home/stores/messagingSlice.ts, and the test for the hybrid envelope
-- of apps/web-client/src/common/crypto/messageHybrid.ts. A field that may be missing or null is an
-- `Option`; a `Record` is a `Dict`, but `encryptedMessageKeys`, whose keys are counted, is a list.
use messaging_system.Common.{
  ℕ, String, Bool, Option, none, some, List, ◌&&◌, not, Dict, empty, ◌==◌, ltb, length, trim,
  is_empty,
}

abbrev pub message_hybrid_algorithm : String
message_hybrid_algorithm = "aes-256-gcm+p256-hybrid-v1"

pub record Message : Type 0 where
  pub id : String
  pub conversation_id : String
  pub sender_id : String
  pub body : Option String
  pub media_key : Option String
  pub encrypted_message_keys : Option (List (String × String))
  pub iv : Option String
  pub algorithm : Option String
  pub created_at : String

-- `Message & { mediaPreviewUrl?: string | null }`
pub record StoredMessage : Type 0 where
  pub message : Message
  pub open message use *
  pub media_preview_url : Option String

-- A server `Message` where a `StoredMessage` is wanted.
abbrev pub stored : Message → StoredMessage
stored m = record { message = m; media_preview_url = none }

pub record MessageReceiptEntry : Type 0 where
  pub delivered_at : Option String
  pub seen_at : Option String

pub record MessageReceiptSummary : Type 0 where
  pub message_id : String
  pub conversation_id : String
  pub created_at : String
  pub receipts_by_user_id : Option (Dict MessageReceiptEntry)

pub data OutboundReceiptLevel : Type 0 where
  loading sent delivered seen : OutboundReceiptLevel

pub data ScrollTargetReason : Type 0 where
  message_new send_ack open_thread : ScrollTargetReason

pub record PendingDirectPeer : Type 0 where
  pub user_id : String
  pub username : Option String
  pub display_name : Option String
  pub profile_picture : Option String
  pub guest : Bool

pub record MessagingState : Type 0 where
  pub active_conversation_id : Option String
  pub pending_direct_peer : Option PendingDirectPeer
  pub messages_by_id : Dict StoredMessage
  pub message_ids_by_conversation_id : Dict (List String)
  pub pending_outgoing_client_ids_by_conversation_id : Dict (List String)
  pub outbound_receipt_by_message_id : Dict OutboundReceiptLevel
  pub receipts_by_message_id : Dict MessageReceiptSummary
  pub send_pending_by_conversation_id : Dict Bool
  pub send_error_by_conversation_id : Dict String
  pub sender_plaintext_by_message_id : Dict String
  pub decrypted_body_by_message_id : Dict String
  pub decrypted_attachment_key_by_message_id : Dict String
  pub decrypted_attachment_url_by_message_id : Dict String
  pub scroll_target_message_id : Option String
  pub scroll_target_conversation_id : Option String
  pub scroll_target_reason : Option ScrollTargetReason
  pub scroll_target_nonce : ℕ

abbrev pub initial_state : MessagingState
initial_state = record {
  active_conversation_id = none;
  pending_direct_peer = none;
  messages_by_id = empty;
  message_ids_by_conversation_id = empty;
  pending_outgoing_client_ids_by_conversation_id = empty;
  outbound_receipt_by_message_id = empty;
  receipts_by_message_id = empty;
  send_pending_by_conversation_id = empty;
  send_error_by_conversation_id = empty;
  sender_plaintext_by_message_id = empty;
  decrypted_body_by_message_id = empty;
  decrypted_attachment_key_by_message_id = empty;
  decrypted_attachment_url_by_message_id = empty;
  scroll_target_message_id = none;
  scroll_target_conversation_id = none;
  scroll_target_reason = none;
  scroll_target_nonce = 0;
}

-- `o === t` for a field that may be missing
abbrev pub is_text : Option String → String → Bool
is_text none t = Bool.false
is_text (some s) t = s == t

-- `Object.keys(k).length`, 0 when `k` is missing
abbrev pub key_count : Option (List (String × String)) → ℕ
key_count none = 0
key_count (some ks) = length ks

-- `typeof s === 'string' && s.trim().length > 0`
abbrev pub has_text : Option String → Bool
has_text none = Bool.false
has_text (some s) = not (is_empty (trim s))

unfoldable pub is_hybrid_e2ee_message : Message → Bool
is_hybrid_e2ee_message m =
    is_text m.algorithm message_hybrid_algorithm
    && ltb 0 (key_count m.encrypted_message_keys)
    && has_text m.iv
    && has_text m.body

unfoldable pub is_message_wire_e2ee : Message → Bool
unfolding is_hybrid_e2ee_message
is_message_wire_e2ee m = is_hybrid_e2ee_message m

-- `selfId && senderId === selfId`
abbrev pub is_own : String → String → Bool
is_own self_id sender_id = not (is_empty self_id) && sender_id == self_id
