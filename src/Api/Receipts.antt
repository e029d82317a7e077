-- ===== src/Api/Receipts.antt =====
-- Delivery and read receipts on the server: under apps/messaging-service/src/data,
-- messages/messageReceiptOps.ts, `findMessageById` and the two `setReceipt` functions of
-- messages/repo.ts, `lookupConversationById` of conversations/repo.ts, `upsertConversationRead` of
-- conversationReads/repo.ts, messaging/receiptPublish.ts and the channel test of `publishMessage`
-- in messaging/rabbitmq.ts. Each `new Date()` is an argument. A handler runs without other writers
-- in between. `$set` on a dotted path sets the field of the embedded document, made where missing.
pub mod Laws
pub mod Delivery
pub mod Cursor
mod Tests
use Prim.Native.String
use messaging_system.Common.{
  ℕ, ◌+◌, String, Bool, true, false, Option, none, some, List, [], ◌∷◌, ◌++◌, not, ◌||◌, Dict,
  empty, put, ltb, leb, trim, is_empty, is_some, contains, get_or, if◌then◌else◌, ◌==◌,
}
use messaging_system.Api.Service.{
  Failure, app_error, plain_error, Outcome, ok, failed, ◌>>=◌, and_then,
}
use messaging_system.Api.Documents.{
  MessageReceiptEntry, MessageDocument, ConversationDocument, ConversationReadDocument,
}
use messaging_system.Api.Mongo.{
  Database, World, ReceiptSocketEvent, message_delivered, message_read, conversation_read,
  ReceiptFanoutPayload, Published, receipt,
}

pub data ConversationLookup : Type 0 where
  direct : ConversationDocument → ConversationLookup
  group : ConversationLookup

-- The two receipt times of an entry.
pub data ReceiptField : Type 0 where
  delivered_field seen_field : ReceiptField

pub data ReceiptResult : Type 0 where
  done : Bool → ReceiptResult
  not_found conversation_mismatch : ReceiptResult

abbrev pub time_of : ReceiptField → MessageReceiptEntry → Option ℕ
time_of delivered_field e = e.delivered_at
time_of seen_field e = e.seen_at

abbrev stamp : ReceiptField → ℕ → MessageReceiptEntry → MessageReceiptEntry
stamp delivered_field at e = record e { delivered_at = some at }
stamp seen_field at e = record e { seen_at = some at }

abbrev no_receipt : MessageReceiptEntry
no_receipt = record { delivered_at = none; seen_at = none }

-- `msg.receiptsByUserId?.[userId]`, where a missing entry has no times
abbrev pub entry_of : MessageDocument → String → MessageReceiptEntry
entry_of msg user_id = get_or (get_or msg.receipts_by_user_id empty user_id) no_receipt

-- `$set: { ['receiptsByUserId.<userId>.<field>']: at }`
unfoldable pub set_receipt_time : ReceiptField → String → ℕ → MessageDocument → MessageDocument
set_receipt_time field user_id at msg = record msg {
  receipts_by_user_id =
      some (
        put user_id (stamp field at (entry_of msg user_id)) (get_or msg.receipts_by_user_id empty));
}

-- `prev !== undefined && prev.getTime() >= at.getTime()`
abbrev pub is_at_least : Option ℕ → ℕ → Bool
is_at_least none at = false
is_at_least (some prev) at = leb at prev

-- What an actor asks for.
pub record ReceiptRequest : Type 0 where
  pub actor_user_id : String
  pub message_id : String
  pub conversation_id : String
  pub origin_socket_id : Option String

module _ (db : Database) where
  unfoldable pub lookup_conversation_by_id : String → World db → Option ConversationLookup
  lookup_conversation_by_id conversation_id w =
      if is_empty (trim conversation_id)
      then none
      else elim (db.conversations.find_one (trim conversation_id) w.conversations) [
        | none ↦ none
        | some doc ↦ if doc.is_group then some group else some (direct doc)
      ]

  unfoldable pub require_direct_conversation : String → World db → Outcome ConversationDocument
  require_direct_conversation conversation_id w =
      elim (lookup_conversation_by_id conversation_id w) [
        | none ↦ failed (app_error "NOT_FOUND" 404 "Conversation not found")
        | some v ↦ elim v [
          | group ↦ failed (app_error "FORBIDDEN" 403 "Group messaging is not supported yet")
          | direct doc ↦ ok doc
        ]
      ]

  unfoldable pub assert_participant : String → ConversationDocument → Outcome {0} Unit
  assert_participant actor_user_id conv =
      if not (contains actor_user_id conv.participant_ids)
      then failed (app_error "FORBIDDEN" 403 "Not a participant in this conversation")
      else ok tt

  unfoldable pub assert_recipient_not_sender : String → String → Outcome {0} Unit
  assert_recipient_not_sender actor_user_id sender_id =
      if actor_user_id == sender_id
      then failed
          (app_error "FORBIDDEN" 403 "Sender cannot set delivery or read state on own message")
      else ok tt

  abbrev pub find_message_by_id : String → World db → Option MessageDocument
  find_message_by_id message_id w = db.messages.find_one (trim message_id) w.messages

  unfoldable pub require_message : String → String → World db → Outcome MessageDocument
  require_message message_id conversation_id w = elim (find_message_by_id message_id w) [
    | none ↦ failed (app_error "NOT_FOUND" 404 "Message not found")
    | some msg ↦
        if not (msg.conversation_id == conversation_id)
        then failed (app_error "INVALID_REQUEST" 400 "Message does not belong to conversation")
        else ok msg
  ]

  -- What the three handlers do before they write: the conversation, if the actor may set receipts.
  unfoldable pub authorize : ReceiptRequest → World db → Outcome ConversationDocument
  authorize r w = do
    conv ← require_direct_conversation r.conversation_id w
    _ ← assert_participant r.actor_user_id conv
    msg ← require_message r.message_id r.conversation_id w
    _ ← assert_recipient_not_sender r.actor_user_id msg.sender_id
    ok conv

  -- `setReceiptDelivered` and `setReceiptSeen`, which differ in the field.
  unfoldable pub set_receipt :
      ReceiptField → String → String → String → ℕ → World db → ReceiptResult × World db
  set_receipt field message_id conversation_id user_id at w =
      elim (db.messages.find_one message_id w.messages) [
        | none ↦ (not_found, w)
        | some msg ↦
            if not (msg.conversation_id == conversation_id)
            then (conversation_mismatch, w)
            else if is_at_least (time_of field (entry_of msg user_id)) at
            then (done false, w)
            else (
              done true,
              record w {
                messages =
                    db.messages.update_one message_id (set_receipt_time field user_id at)
                      w.messages;
              },
            )
      ]

  abbrev map_failure : ReceiptResult → Outcome Bool
  map_failure (done changed) = ok changed
  map_failure not_found = failed (app_error "NOT_FOUND" 404 "Message not found")
  map_failure conversation_mismatch =
      failed (app_error "INVALID_REQUEST" 400 "Message does not belong to conversation")

  -- `if (!r.ok) mapReceiptFailure(r)`
  abbrev pub map_receipt_failure : ReceiptResult × World db → Outcome Bool × World db
  map_receipt_failure (result, w) = (map_failure result, w)

  -- The document after `$set` and `$setOnInsert`.
  abbrev pub read_cursor :
      ReceiptRequest → ℕ → ℕ → Option ConversationReadDocument → ConversationReadDocument
  read_cursor r at now none = record {
    user_id = r.actor_user_id;
    conversation_id = r.conversation_id;
    last_read_message_id = r.message_id;
    last_read_at = at;
    updated_at = now;
  }
  read_cursor r at now (some doc) = record doc {
    last_read_message_id = r.message_id;
    last_read_at = at;
    updated_at = now;
  }

  -- `upsertConversationRead`, with the `changed` it returns; `now` is its own `new Date()`.
  unfoldable pub upsert_conversation_read :
      ReceiptRequest → ℕ → ℕ → World db → Outcome Bool × World db
  upsert_conversation_read r at now w =
      let key : String × String = (r.actor_user_id, r.conversation_id) in
      let set : Option ConversationReadDocument → ConversationReadDocument = read_cursor r at now in
      let reads = db.reads.upsert_one key set w.reads in
      let changed =
        ltb 0 (db.reads.upserted_count key set w.reads)
        || ltb 0 (db.reads.modified_count key set w.reads) in
      (
        if is_some (db.reads.find_one key reads)
            then ok changed
            else failed (plain_error "upsertConversationRead: missing document after upsert"),
        record w { reads = reads },
      )

  -- `connected` is whether there is a channel once a connection that is being made is there; the two
  -- errors of a missing channel are one failure, and a `ch.publish` that throws is left out.
  unfoldable pub publish_message : Published → World db → Outcome {0} Unit × World db
  publish_message p w =
      if w.connected then (ok tt, record w { published = w.published ++ p ∷ [] }) else (
        failed (plain_error "RabbitMQ not connected: call connectRabbit() before publishMessage"),
        w,
      )

  -- What a participant is sent.
  abbrev pub receipt_for : ReceiptRequest → ReceiptSocketEvent → ℕ → String → Published
  receipt_for r event at pid = record {
    routing_key = String.◌++◌ "message.receipt." pid;
    payload = receipt event (record {
      message_id = r.message_id;
      conversation_id = r.conversation_id;
      user_id = r.actor_user_id;
      at = at;
    });
    skip_socket_id = if pid == r.actor_user_id then r.origin_socket_id else none;
  }

  -- The loop stops at the first publish that throws.
  unfoldable pub publish_receipt_to_participants :
      ReceiptRequest → ReceiptSocketEvent → ℕ → List String → World db → Outcome {0} Unit × World db
  publish_receipt_to_participants r event at [] w = (ok tt, w)
  publish_receipt_to_participants r event at (pid ∷ pids) w =
      and_then (publish_message (receipt_for r event at pid) w)
        (λ _. publish_receipt_to_participants r event at pids)

  -- `if (!changed) return;` before the publish
  abbrev pub publish_if :
      Bool
      → ReceiptRequest
      → ReceiptSocketEvent
      → ℕ
      → ConversationDocument
      → World db
      → Outcome {0} Unit × World db
  publish_if changed r event at conv w =
      if changed
      then publish_receipt_to_participants r event at conv.participant_ids w
      else (ok tt, w)

  unfoldable pub process_message_delivered :
      ReceiptRequest → ℕ → World db → Outcome {0} Unit × World db
  process_message_delivered r at w =
      and_then (authorize r w, w)
        λ conv w.
          and_then
            (map_receipt_failure
              (set_receipt delivered_field r.message_id r.conversation_id r.actor_user_id at w))
            λ changed w. publish_if changed r message_delivered at conv w

  unfoldable pub process_message_read :
      ReceiptRequest → ℕ → ℕ → World db → Outcome {0} Unit × World db
  process_message_read r at now w =
      and_then (authorize r w, w)
        λ conv w.
          and_then
            (map_receipt_failure
              (set_receipt seen_field r.message_id r.conversation_id r.actor_user_id at w))
            λ seen w.
              and_then (upsert_conversation_read r at now w)
                λ cursor w. publish_if (seen || cursor) r message_read at conv w

  unfoldable pub process_conversation_read :
      ReceiptRequest → ℕ → ℕ → World db → Outcome {0} Unit × World db
  process_conversation_read r at now w =
      and_then (authorize r w, w)
        λ conv w.
          and_then (upsert_conversation_read r at now w)
            λ changed w. publish_if changed r conversation_read at conv w
