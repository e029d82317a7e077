-- ===== src/Api/Receipts/Cursor.antt =====
-- What the conversation-read handler does for an actor who is entitled to it.
use messaging_system.Common.{
  ◌≡◌, ◌≢◌, refl, ℕ, Bool, true, false, Option, none, some, ◌++◌, map, ltb, ◌||◌, inl, inr, ap, sym,
  ◌∙◌, Option-cases,
}
use messaging_system.Api.Service.{ok, and_then}
use messaging_system.Api.Documents.{ConversationDocument, ConversationReadDocument}
use messaging_system.Api.Mongo.{Database, World, IsLawfulDatabase, conversation_read}
use messaging_system.Api.Receipts.{
  ReceiptRequest, read_cursor, upsert_conversation_read, publish_if, process_conversation_read,
}
use messaging_system.Api.Receipts.Laws.{
  receipt_to, IsAuthorized, authorize_complete, publish_receipt-appends,
}

or-true : (b : Bool) → (b || true) ≡ true
or-true true = refl
or-true false = refl

module _ (db : Database) (lawful : IsLawfulDatabase db) where
  module _ (r : ReceiptRequest) (at now : ℕ) (w : World db) where
    -- The world after the cursor is set.
    abbrev pub with_cursor : World db
    with_cursor = record w {
      reads =
          db.reads.upsert_one (r.actor_user_id, r.conversation_id) (read_cursor db r at now)
            w.reads;
    }

    find-with_cursor :
        db.reads.find_one (r.actor_user_id, r.conversation_id) with_cursor.reads
        ≡ some (
            read_cursor db r at now
              (db.reads.find_one (r.actor_user_id, r.conversation_id) w.reads))
    find-with_cursor =
        lawful.reads.find-upsert (r.actor_user_id, r.conversation_id) (read_cursor db r at now)
          w.reads refl (λ _. refl)

    -- A cursor that was last written at another time is changed.
    upsert_conversation_read-changes :
        ((d : ConversationReadDocument)
          → db.reads.find_one (r.actor_user_id, r.conversation_id) w.reads ≡ some d
          → d.updated_at ≢ now)
        → upsert_conversation_read db r at now w ≡ (ok true, with_cursor)
    unfolding upsert_conversation_read
    upsert_conversation_read-changes late =
        elim (Option-cases (db.reads.find_one (r.actor_user_id, r.conversation_id) w.reads)) [
          | inl e ↦
              rw
                (
                  find-with_cursor,
                  lawful.reads.upserted (r.actor_user_id, r.conversation_id)
                      (read_cursor db r at now) w.reads e,
                )
                refl
          | inr (d, e) ↦
              rw
                (
                  find-with_cursor,
                  lawful.reads.modified (r.actor_user_id, r.conversation_id)
                      (read_cursor db r at now) w.reads d e
                      (λ same.
                        late d e (sym (ap (λ (x : ConversationReadDocument). x.updated_at) same))),
                )
                (ap (λ x. (ok x, with_cursor))
                  (or-true (
                    ltb 0 (
                      db.reads.upserted_count (r.actor_user_id, r.conversation_id)
                        (read_cursor db r at now) w.reads))))
        ]

  -- The world and the answer once the cursor is written.
  conversation_read-written :
      (r : ReceiptRequest) (at now : ℕ) (w : World db) (conv : ConversationDocument)
      → IsAuthorized db r w conv
      → w.connected ≡ true
      → ((d : ConversationReadDocument)
          → db.reads.find_one (r.actor_user_id, r.conversation_id) w.reads ≡ some d
          → d.updated_at ≢ now)
      → process_conversation_read db r at now w ≡ (
        ok tt,
        record (with_cursor r at now w) {
          published = w.published ++ map (receipt_to r conversation_read at) conv.participant_ids;
        },
      )
  unfolding process_conversation_read
  conversation_read-written r at now w conv entitled c late =
      ap
        (λ x.
          and_then (x, w)
            (λ conv w.
              and_then (upsert_conversation_read db r at now w)
                (λ changed. publish_if db changed r conversation_read at conv)))
        (authorize_complete db r w conv entitled)
      ∙ ap (λ x. and_then x (λ changed. publish_if db changed r conversation_read at conv))
          (upsert_conversation_read-changes r at now w late)
      ∙ publish_receipt-appends db r conversation_read at conv.participant_ids
          (with_cursor r at now w) c

  -- A cursor is at the message, at the time, and was written now.
  abbrev pub IsAt : ReceiptRequest → ℕ → ℕ → ConversationReadDocument → Type 0
  IsAt r at now d =
      (d.last_read_message_id ≡ r.message_id) × (d.last_read_at ≡ at) × (d.updated_at ≡ now)

  read_cursor-IsAt :
      (r : ReceiptRequest) (at now : ℕ) (o : Option ConversationReadDocument)
      → IsAt r at now (read_cursor db r at now o)
  read_cursor-IsAt r at now none = (refl, refl, refl)
  read_cursor-IsAt r at now (some d) = (refl, refl, refl)

  -- For an entitled actor, with a broker channel, and where a cursor of the actor was not last
  -- written in the same millisecond, the handler returns and leaves the messages; the cursor of the
  -- actor in the conversation is at the message and the time; and each participant is sent the event,
  -- although the cursor may already have been at the message.
  pub process_conversation_read-publishes :
      (r : ReceiptRequest) (at now : ℕ) (w : World db) (conv : ConversationDocument)
      → IsAuthorized db r w conv
      → w.connected ≡ true
      → ((d : ConversationReadDocument)
          → db.reads.find_one (r.actor_user_id, r.conversation_id) w.reads ≡ some d
          → d.updated_at ≢ now)
      → let result = process_conversation_read db r at now w in
        (result.0 ≡ ok tt)
        × (result.1.messages ≡ w.messages)
        × (result.1.published
            ≡ w.published ++ map (receipt_to r conversation_read at) conv.participant_ids)
        × ((d : ConversationReadDocument) × (db.reads.find_one
                (r.actor_user_id, r.conversation_id)
                result.1.reads
              ≡ some d)
            × IsAt r at now d)
  process_conversation_read-publishes r at now w conv entitled c late =
      let before = db.reads.find_one (r.actor_user_id, r.conversation_id) w.reads in
      rw (conversation_read-written r at now w conv entitled c late) (
        refl,
        refl,
        refl,
        (
          read_cursor db r at now before,
          find-with_cursor r at now w,
          read_cursor-IsAt r at now before,
        ),
      )
