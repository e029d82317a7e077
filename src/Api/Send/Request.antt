-- ===== src/Api/Send/Request.antt =====
-- The pure part of sending: the request and its normalisation, the guest rule of
-- apps/messaging-service/src/data/messages/guestMessagingAuthz.ts, the pair key, the stored document
-- and its publishes. Texts are ordered by code point.
use Prim.Native.String
use Prim.Native.Nat
use messaging_system.Common.{
  ℕ, String, Bool, true, false, Option, none, some, List, not, ◌&&◌, trim, is_empty, is_nil,
  if◌then◌else◌,
}
use messaging_system.Api.Service.{app_error, Outcome, ok, failed}
use messaging_system.Api.Documents.{MessageDocument, UserDocument}
use messaging_system.Api.Mongo.{MessageApiPayload, Published, message_api}

-- An absent and a null field are told apart only where the code does.
pub record SendMessageRequest : Type 0 where
  pub conversation_id : Option String
  pub recipient_user_id : Option String
  pub body : Option String
  pub media_key : Option String
  pub encrypted_message_keys : Option (List (String × String))
  pub iv : Option (Option String)
  pub algorithm : Option (Option String)

-- What a request draws on besides the database.
pub record Sources : Type 0 where
  pub guest_data_ttl_enabled : Bool
  pub guest_data_mongodb_ttl_seconds : ℕ
  pub now : ℕ
  pub fresh_message_id : String
  pub fresh_conversation_id : String

-- The parameters of `insertMessage`.
pub record NewMessage : Type 0 where
  pub conversation_id : String
  pub sender_id : String
  pub body : Option String
  pub media_key : Option String
  pub encrypted_message_keys : Option (List (String × String))
  pub iv : Option (Option String)
  pub algorithm : Option (Option String)
  pub guest_data_expires_at : Option ℕ

-- `normalizeBodyText` and `normalizeMediaKey`
abbrev pub normalize_text : Option String → Option String
normalize_text none = none
normalize_text (some s) = if is_empty (trim s) then none else some (trim s)

-- `normalizeIv` and `normalizeAlgorithm`
abbrev pub normalize_optional : Option (Option String) → Option (Option String)
normalize_optional none = none
normalize_optional (some s) = some (normalize_text s)

abbrev has_keys : Option (List (String × String)) → Bool
has_keys none = false
has_keys (some keys) = not (is_nil keys)

abbrev has_algorithm : Option (Option String) → Bool
has_algorithm none = false
has_algorithm (some none) = false
has_algorithm (some (some s)) = not (is_empty (trim s))

unfoldable pub has_hybrid_envelope : SendMessageRequest → Bool
has_hybrid_envelope payload =
    has_keys payload.encrypted_message_keys && has_algorithm (normalize_optional payload.algorithm)

-- The media key that is stored.
abbrev pub stored_media_key : SendMessageRequest → Option String
stored_media_key payload =
    if has_hybrid_envelope payload then none else normalize_text payload.media_key

abbrev both_or_neither : Bool → Bool → Bool
both_or_neither true b = b
both_or_neither false b = not b

unfoldable pub assert_guest_guest_direct_messaging_allowed :
    UserDocument → UserDocument → Outcome {0} Unit
assert_guest_guest_direct_messaging_allowed sender recipient =
    if both_or_neither sender.is_guest recipient.is_guest
    then ok tt
    else failed (
        app_error "GUEST_MESSAGING_FORBIDDEN" 403 (
          if sender.is_guest
          then "Guests can only message other guests"
          else "Registered users cannot message guest accounts"))

abbrev pub message_document_to_api : MessageDocument → MessageApiPayload
message_document_to_api msg = record {
  id = msg.id;
  conversation_id = msg.conversation_id;
  sender_id = msg.sender_id;
  body = msg.body;
  media_key = msg.media_key;
  created_at = msg.created_at;
  encrypted_message_keys = msg.encrypted_message_keys;
  iv = msg.iv;
  algorithm = msg.algorithm;
}

-- `[userA, userB].sort()`
unfoldable pub sorted_pair : String → String → String × String
sorted_pair a b = elim (String.compare a b) [ Prim.Native.Nat.Ordering.gt ↦ (b, a) | _ ↦ (a, b) ]

unfoldable pub direct_pair_key : String → String → String
unfolding sorted_pair
direct_pair_key a b = let (p0, p1) = sorted_pair a b in String.◌++◌ p0 (String.◌++◌ "|" p1)

-- The document that `insertMessage` stores.
abbrev pub new_document : NewMessage → Sources → MessageDocument
new_document p sources = record {
  id = sources.fresh_message_id;
  conversation_id = p.conversation_id;
  sender_id = p.sender_id;
  body = p.body;
  media_key = p.media_key;
  encrypted_message_keys = p.encrypted_message_keys;
  iv = p.iv;
  algorithm = p.algorithm;
  created_at = sources.now;
  guest_data_expires_at = p.guest_data_expires_at;
  receipts_by_user_id = none;
}

-- The publishes of a stored message: the recipient's, and the echo to the sender's other devices.
abbrev pub to_recipient : String → MessageDocument → Published
to_recipient recipient_user_id doc = record {
  routing_key = String.◌++◌ "message.user." recipient_user_id;
  payload = message_api (message_document_to_api doc);
  skip_socket_id = none;
}

abbrev pub to_sender : Option String → MessageDocument → Published
to_sender origin_socket_id doc = record {
  routing_key = String.◌++◌ "message.user." doc.sender_id;
  payload = message_api (message_document_to_api doc);
  skip_socket_id = origin_socket_id;
}
