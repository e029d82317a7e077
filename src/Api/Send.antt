-- ===== src/Api/Send.antt =====
-- Sending a direct message: under apps/messaging-service/src/data, messages/sendMessage.ts,
-- messages/guestMessagingAuthz.ts, `insertMessage` of messages/repo.ts,
-- messages/messageApiShape.ts, `directPairKey`, `findDirectConversationIdBetween` and
-- `findOrCreateDirectConversation` of conversations/repo.ts, `findUserById` of users/repo.ts, and
-- config/guestDataTtl.ts beside it. Clocks, random ids and the effective configuration are
-- arguments.
pub mod Request
pub mod Addressing
pub mod Laws
pub mod Refusal
mod Tests
use Prim.Native.String
use Prim.Native.Nat
use messaging_system.Common.{
  ℕ, ◌+◌, ◌*◌, String, Bool, true, false, Option, none, some, List, [], ◌∷◌, not, ◌&&◌, trim,
  trim_or_empty, is_empty, is_some, is_nil, contains, get_or, if◌then◌else◌, ◌==◌,
}
use messaging_system.Api.Service.{Failure, app_error, plain_error, Outcome, ok, failed, and_then}
use messaging_system.Api.Documents.{MessageDocument, ConversationDocument, UserDocument}
use messaging_system.Api.Mongo.{Database, World, MessageApiPayload, Published, message_api}
use messaging_system.Api.Receipts.{direct, group, lookup_conversation_by_id, publish_message}
use messaging_system.Api.Send.Request.{
  SendMessageRequest, Sources, NewMessage, normalize_text, normalize_optional, stored_media_key,
  assert_guest_guest_direct_messaging_allowed, sorted_pair, direct_pair_key, new_document,
  to_recipient, to_sender,
}

module _ (db : Database) where
  unfoldable pub find_user_by_id : String → World db → Option UserDocument
  find_user_by_id id w = if is_empty (trim id) then none else db.users.find_one (trim id) w.users

  unfoldable pub insert_message :
      NewMessage → Sources → World db → Outcome MessageDocument × World db
  insert_message p sources w =
      let doc = new_document p sources in
      elim (db.messages.insert_one doc w.messages) [
        | none ↦ (failed (plain_error "E11000 duplicate key error"), w)
        | some messages ↦ (
          ok doc,
          record w {
            messages = messages;
            conversations =
                db.conversations.update_one p.conversation_id
                  (λ c. record c { updated_at = sources.now }) w.conversations;
          },
        )
      ]

  unfoldable pub insert_direct_message_and_publish :
      String → NewMessage → Option String → Sources → World db → Outcome MessageDocument × World db
  insert_direct_message_and_publish recipient_user_id p origin_socket_id sources w =
      and_then (insert_message p sources w) λ doc w.
        and_then (publish_message db (to_recipient recipient_user_id doc) w)
          λ _ w. and_then (publish_message db (to_sender origin_socket_id doc) w) λ _ w. (ok doc, w)

  abbrev find_direct_conversation_between : String → String → World db → Option ConversationDocument
  find_direct_conversation_between a b w =
      if a == b then none else elim (db.find_direct (direct_pair_key a b) w.conversations) [
        | none ↦ none
        | some found ↦ db.conversations.find_one found.id w.conversations
      ]

  -- A duplicate key means that another request made the conversation first.
  unfoldable pub find_or_create_direct_conversation :
      String → String → Option ℕ → Sources → World db → Outcome ConversationDocument × World db
  unfolding direct_pair_key sorted_pair
  find_or_create_direct_conversation a b guest_data_expires_at sources w =
      let (p0, p1) = sorted_pair a b in
      let doc : ConversationDocument = record {
        id = sources.fresh_conversation_id;
        direct_pair_key = direct_pair_key a b;
        participant_ids = p0 ∷ p1 ∷ [];
        is_group = false;
        created_at = sources.now;
        updated_at = sources.now;
        guest_data_expires_at = guest_data_expires_at;
      } in
      elim (find_direct_conversation_between a b w) [
        | some existing ↦ (ok existing, w)
        | none ↦ elim (db.conversations.insert_one doc w.conversations) [
          | some conversations ↦ (ok doc, record w { conversations = conversations })
          | none ↦ elim (find_direct_conversation_between a b w) [
            | some retry ↦ (ok retry, w)
            | none ↦ (failed (plain_error "E11000 duplicate key error"), w)
          ]
        ]
      ]

  is_guest_user : Option UserDocument → Bool
  is_guest_user none = false
  is_guest_user (some user) = user.is_guest

  resolve_guest_guest_data_expires_at : Sources → String → String → World db → Option ℕ
  unfolding is_guest_user
  resolve_guest_guest_data_expires_at sources sender_id recipient_id w =
      if not sources.guest_data_ttl_enabled
      then none
      else if is_guest_user (find_user_by_id sender_id w)
          && is_guest_user (find_user_by_id recipient_id w)
      then some (sources.now + sources.guest_data_mongodb_ttl_seconds * 1000)
      else none

  -- The parameters that both branches pass on.
  abbrev pub new_message : String → SendMessageRequest → String → Option ℕ → NewMessage
  new_message sender_id payload conversation_id guest_exp = record {
    conversation_id = conversation_id;
    sender_id = sender_id;
    body = normalize_text payload.body;
    media_key = stored_media_key payload;
    encrypted_message_keys = payload.encrypted_message_keys;
    iv = normalize_optional payload.iv;
    algorithm = normalize_optional payload.algorithm;
    guest_data_expires_at = guest_exp;
  }

  -- `find((id) => id !== senderId)`
  abbrev other_participant : String → List String → Option String
  other_participant sender_id [] = none
  other_participant sender_id (id ∷ ids) =
      let rest = other_participant sender_id ids in if id == sender_id then rest else some id

  -- The recipient, if there is one whom the sender may write to.
  unfoldable pub check_recipient : UserDocument → String → World db → Outcome {0} Unit
  check_recipient sender recipient_user_id w = elim (find_user_by_id recipient_user_id w) [
    | none ↦ failed (app_error "NOT_FOUND" 404 "Recipient not found")
    | some recipient ↦ assert_guest_guest_direct_messaging_allowed sender recipient
  ]

  unfoldable pub send_to_recipient :
      Sources
      → UserDocument
      → String
      → SendMessageRequest
      → String
      → Option String
      → World db
      → Outcome MessageDocument × World db
  unfolding resolve_guest_guest_data_expires_at
  send_to_recipient sources sender sender_id payload recip_raw origin w =
      let guest_exp = resolve_guest_guest_data_expires_at sources sender_id recip_raw w in
      if recip_raw == sender_id
      then (failed (app_error "INVALID_REQUEST" 400 "Cannot message yourself"), w)
      else and_then (check_recipient sender recip_raw w, w)
          λ _ w.
            and_then (find_or_create_direct_conversation sender_id recip_raw guest_exp sources w)
              λ conv w.
                insert_direct_message_and_publish recip_raw
                  (new_message sender_id payload conv.id guest_exp) origin sources w

  -- The conversation of the second branch and its other participant.
  unfoldable pub direct_recipient :
      String → String → World db → Outcome (ConversationDocument × String)
  direct_recipient sender_id conv_raw w = elim (lookup_conversation_by_id db conv_raw w) [
    | none ↦ failed (app_error "NOT_FOUND" 404 "Conversation not found")
    | some looked_up ↦ elim looked_up [
      | group ↦ failed (app_error "FORBIDDEN" 403 "Group messaging is not supported yet")
      | direct conv ↦
          if not (contains sender_id conv.participant_ids)
          then failed (app_error "FORBIDDEN" 403 "Not a participant in this conversation")
          else elim (other_participant sender_id conv.participant_ids) [
            | none ↦
                failed (app_error "INTERNAL_ERROR" 500 "Invalid direct conversation participants")
            | some recipient_user_id ↦ ok (conv, recipient_user_id)
          ]
    ]
  ]

  unfoldable pub send_to_conversation :
      Sources
      → UserDocument
      → String
      → SendMessageRequest
      → String
      → Option String
      → World db
      → Outcome MessageDocument × World db
  unfolding resolve_guest_guest_data_expires_at
  send_to_conversation sources sender sender_id payload conv_raw origin w =
      and_then (direct_recipient sender_id conv_raw w, w)
        λ target w.
          and_then (check_recipient sender target.1 w, w)
            λ _ w.
              let guest_exp = resolve_guest_guest_data_expires_at sources sender_id target.1 w in
              insert_direct_message_and_publish target.1
                (new_message sender_id payload target.0.id guest_exp) origin sources w

  unfoldable pub send_message_for_user :
      Sources
      → String
      → SendMessageRequest
      → Option String
      → World db
      → Outcome MessageDocument × World db
  send_message_for_user sources sender_id payload origin w =
      let conv_raw = trim_or_empty payload.conversation_id in
      let recip_raw = trim_or_empty payload.recipient_user_id in
      elim (find_user_by_id sender_id w) [
        | none ↦ (failed (app_error "NOT_FOUND" 404 "Sender not found"), w)
        | some sender ↦
            if not (is_empty recip_raw)
            then send_to_recipient sources sender sender_id payload recip_raw origin w
            else if not (is_empty conv_raw)
            then send_to_conversation sources sender sender_id payload conv_raw origin w
            else (failed (app_error "INVALID_REQUEST" 400 "Invalid send request"), w)
      ]
