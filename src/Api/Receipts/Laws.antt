-- ===== src/Api/Receipts/Laws.antt =====
-- What the receipt handlers guarantee.
use Prim.Native.String
use messaging_system.Common.{
  ◌==◌, if◌then◌else◌, none, ◌≡◌, ◌≢◌, refl, ℕ, String, true, false, some, List, [], ◌∷◌, ◌++◌, map,
  trim, is_empty, contains, arith, eq_iff, eq_refl, inl, inr, ◌⊎◌, ap, ◌∙◌,
}
use mathlib.Core.List.{append_assoc, append-nil}
use messaging_system.Api.Service.{Failure, Outcome, ok, failed, ◌>>=◌, and_then}
use messaging_system.Api.Documents.{MessageDocument, ConversationDocument}
use messaging_system.Api.Mongo.{Database, World, ReceiptSocketEvent, Published, receipt}
use messaging_system.Api.Receipts.{
  ReceiptField, done, time_of, entry_of, set_receipt_time, is_at_least, ReceiptRequest,
  lookup_conversation_by_id, find_message_by_id, authorize, set_receipt,
  require_direct_conversation, require_message, assert_participant, assert_recipient_not_sender,
  publish_message, publish_receipt_to_participants, process_message_delivered, process_message_read,
  process_conversation_read,
}

bind_ok {ℓ κ μ} :
    {A : Type ℓ} {B : Type κ} {P : Type μ} (o : Outcome A) (f : A → Outcome B) (b : B)
    → (o >>= f) ≡ ok b
    → ((a : A) → o ≡ ok a → f a ≡ ok b → P)
    → P
unfolding ◌>>=◌
bind_ok (failed e) f b h k = ground arith
bind_ok (ok a) f b h k = k a refl h

ok-injective {ℓ} : {A : Type ℓ} {a b : A} → ok a ≡ ok b → a ≡ b
ok-injective e = ground arith

-- The event that the sockets of a participant are sent; the actor's own skip the one that it came from.
abbrev pub receipt_to : ReceiptRequest → ReceiptSocketEvent → ℕ → String → Published
receipt_to r event at participant_id = record {
  routing_key = String.◌++◌ "message.receipt." participant_id;
  payload = receipt event (record {
    message_id = r.message_id;
    conversation_id = r.conversation_id;
    user_id = r.actor_user_id;
    at = at;
  });
  skip_socket_id = if participant_id == r.actor_user_id then r.origin_socket_id else none;
}

module _ (db : Database) where
  -- The actor takes part in the direct conversation, which holds the message of another sender.
  pub record IsAuthorized (r : ReceiptRequest) (w : World db) (conv : ConversationDocument)
      : Type 0 where
    pub named : is_empty (trim r.conversation_id) ≡ false
    pub found : db.conversations.find_one (trim r.conversation_id) w.conversations ≡ some conv
    pub is_direct : conv.is_group ≡ false
    pub participant : contains r.actor_user_id conv.participant_ids ≡ true
    pub message : MessageDocument
    pub message_found : find_message_by_id db r.message_id w ≡ some message
    pub in_conversation : message.conversation_id ≡ r.conversation_id
    pub of_other : message.sender_id ≢ r.actor_user_id

  require_direct-ok :
      (cid : String) (w : World db) (conv : ConversationDocument)
      → require_direct_conversation db cid w ≡ ok conv
      → (is_empty (trim cid) ≡ false)
        × (db.conversations.find_one (trim cid) w.conversations ≡ some conv)
        × (conv.is_group ≡ false)
  unfolding require_direct_conversation lookup_conversation_by_id
  require_direct-ok cid w conv h = ground arith

  require_message-ok :
      (mid cid : String) (w : World db) (msg : MessageDocument)
      → require_message db mid cid w ≡ ok msg
      → (find_message_by_id db mid w ≡ some msg) × (msg.conversation_id ≡ cid)
  unfolding require_message
  require_message-ok mid cid w msg h = ground (arith, eq_iff msg.conversation_id cid)

  authorized :
      (r : ReceiptRequest) (w : World db) (conv : ConversationDocument) (msg : MessageDocument)
      → require_direct_conversation db r.conversation_id w ≡ ok conv
      → assert_participant db r.actor_user_id conv ≡ ok tt
      → require_message db r.message_id r.conversation_id w ≡ ok msg
      → assert_recipient_not_sender db r.actor_user_id msg.sender_id ≡ ok tt
      → IsAuthorized r w conv
  unfolding assert_participant assert_recipient_not_sender
  authorized r w conv msg e1 e2 e3 e4 =
      let c = require_direct-ok r.conversation_id w conv e1 in
      let m = require_message-ok r.message_id r.conversation_id w msg e3 in
      record {
        named = c.0;
        found = c.1;
        is_direct = c.2;
        participant = ground arith;
        message = msg;
        message_found = m.0;
        in_conversation = m.1;
        of_other = ground (arith, eq_iff r.actor_user_id msg.sender_id);
      }

  pub authorize-IsAuthorized :
      (r : ReceiptRequest) (w : World db) (conv : ConversationDocument)
      → authorize db r w ≡ ok conv
      → IsAuthorized r w conv
  unfolding authorize
  authorize-IsAuthorized r w conv h = bind_ok _ _ _ h λ c e1 h. bind_ok _ _ _ h λ _ e2 h.
      bind_ok _ _ _ h λ msg e3 h. bind_ok _ _ _ h λ _ e4 h.
        authorized r w conv msg (rw (← ok-injective h) e1) (rw (← ok-injective h) e2) e3 e4

  pub authorize_complete :
      (r : ReceiptRequest) (w : World db) (conv : ConversationDocument)
      → IsAuthorized r w conv
      → authorize db r w ≡ ok conv
  unfolding authorize require_direct_conversation lookup_conversation_by_id assert_participant
      require_message assert_recipient_not_sender ◌>>=◌
  authorize_complete r w conv h = ground (
    arith,
    h.named,
    h.found,
    h.is_direct,
    h.participant,
    h.message_found,
    h.in_conversation,
    h.of_other,
    eq_iff r.actor_user_id h.message.sender_id,
    eq_iff h.message.conversation_id r.conversation_id,
  )

  Outcome-cases :
      {A : Type 0} (o : Outcome A) → ((e : Failure) × (o ≡ failed e)) ⊎ ((a : A) × (o ≡ ok a))
  Outcome-cases (failed e) = inl (e, refl)
  Outcome-cases (ok a) = inr (a, refl)

  -- A handler refused the request and left the world as it was, or the actor was entitled to it.
  abbrev pub IsGuarded : ReceiptRequest → World db → Outcome {0} Unit × World db → Type 0
  IsGuarded r w result =
      ((e : Failure) × (result ≡ (failed e, w)))
      ⊎ ((conv : ConversationDocument) × IsAuthorized r w conv)

  process-refused :
      (r : ReceiptRequest) (at now : ℕ) (w : World db) (e : Failure)
      → authorize db r w ≡ failed e
      → (process_message_delivered db r at w ≡ (failed e, w))
        × (process_message_read db r at now w ≡ (failed e, w))
        × (process_conversation_read db r at now w ≡ (failed e, w))
  unfolding process_message_delivered process_message_read process_conversation_read
  process-refused r at now w e h = (
    rw (h, process_message_delivered) refl,
    rw (h, process_message_read) refl,
    rw (h, process_conversation_read) refl,
  )

  -- Each of the three handlers either refuses the request, writing and publishing nothing, or the
  -- conversation is a direct one in which the actor takes part, and the message is another user's
  -- message of that conversation.
  pub process-IsGuarded :
      (r : ReceiptRequest) (at now : ℕ) (w : World db)
      → IsGuarded r w (process_message_delivered db r at w)
        × IsGuarded r w (process_message_read db r at now w)
        × IsGuarded r w (process_conversation_read db r at now w)
  process-IsGuarded r at now w = elim (Outcome-cases (authorize db r w)) [
    | inl (e, h) ↦
        let p = process-refused r at now w e h in (inl (e, p.0), inl (e, p.1), inl (e, p.2))
    | inr (conv, h) ↦
        let a = authorize-IsAuthorized r w conv h in (inr (conv, a), inr (conv, a), inr (conv, a))
  ]

  publish_message-connected :
      (p : Published) (w : World db)
      → w.connected ≡ true
      → publish_message db p w ≡ (ok tt, record w { published = w.published ++ p ∷ [] })
  unfolding publish_message
  publish_message-connected p w h = rw h refl

  pub publish_receipt-appends :
      (r : ReceiptRequest) (event : ReceiptSocketEvent) (at : ℕ) (pids : List String) (w : World db)
      → w.connected ≡ true
      → publish_receipt_to_participants db r event at pids w
        ≡ (ok tt, record w { published = w.published ++ map (receipt_to r event at) pids })
  unfolding publish_receipt_to_participants
  publish_receipt-appends r event at [] w h = rw (append-nil w.published) refl
  publish_receipt-appends r event at (pid ∷ pids) w h =
      let p = receipt_to r event at pid in
      let w' : World db = record w { published = w.published ++ p ∷ [] } in
      ap (λ x. and_then x (λ _. publish_receipt_to_participants db r event at pids))
        (publish_message-connected p w h)
      ∙ publish_receipt-appends r event at pids w' h
      ∙ rw (append_assoc w.published (p ∷ []) (map (receipt_to r event at) pids)) refl

  module _ (field : ReceiptField) (r : ReceiptRequest) (at : ℕ) (w : World db)
      (msg : MessageDocument) (found : db.messages.find_one r.message_id w.messages ≡ some msg)
      (same : msg.conversation_id ≡ r.conversation_id) where
    -- The receipt that is asked for is there already.
    pub set_receipt-kept :
        is_at_least (time_of field (entry_of msg r.actor_user_id)) at ≡ true
        → set_receipt db field r.message_id r.conversation_id r.actor_user_id at w ≡ (done false, w)
    unfolding set_receipt
    set_receipt-kept h = rw (found, same, eq_refl r.conversation_id, h, set_receipt) refl

    pub set_receipt-written :
        is_at_least (time_of field (entry_of msg r.actor_user_id)) at ≡ false
        → set_receipt db field r.message_id r.conversation_id r.actor_user_id at w ≡ (
          done true,
          record w {
            messages =
                db.messages.update_one r.message_id
                  (set_receipt_time field r.actor_user_id at)
                  w.messages;
          },
        )
    unfolding set_receipt
    set_receipt-written h = rw (found, same, eq_refl r.conversation_id, h, set_receipt) refl
