-- ===== src/Api/Receipts/Delivery.antt =====
-- What the delivered handler does for an actor who is entitled to it.
use messaging_system.Common.{
  Bool, not, ltb, Option-cases, ◌≡◌, refl, ℕ, ◌≤◌, String, true, false, Option, none, some, List,
  ◌++◌, map, trim, if◌then◌else◌, arith, eq_refl, Bool-cases, inl, inr, ap, ◌∙◌, sym,
}
use messaging_system.Api.Service.{Outcome, ok, and_then}
use messaging_system.Api.Documents.{MessageDocument, ConversationDocument}
use messaging_system.Api.Mongo.{Database, World, IsLawfulDatabase, message_delivered, Published}
use messaging_system.Api.Receipts.{
  ReceiptField, delivered_field, seen_field, time_of, entry_of, set_receipt_time, is_at_least,
  ReceiptRequest, find_message_by_id, set_receipt, map_receipt_failure, publish_if,
  process_message_delivered,
}
use messaging_system.Api.Receipts.Laws.{
  receipt_to, IsAuthorized, authorize_complete, publish_receipt-appends, set_receipt-kept,
  set_receipt-written,
}

-- After a receipt time is set, it is there.
pub time_of-set_receipt_time :
    (field : ReceiptField) (user_id : String) (at : ℕ) (msg : MessageDocument)
    → time_of field (entry_of (set_receipt_time field user_id at msg) user_id) ≡ some at
unfolding set_receipt_time
time_of-set_receipt_time delivered_field user_id at msg = rw (eq_refl user_id) refl
time_of-set_receipt_time seen_field user_id at msg = rw (eq_refl user_id) refl

earlier :
    (o : Option ℕ) (at again : ℕ)
    → again ≤ at
    → is_at_least o at ≡ true
    → is_at_least o again ≡ true
earlier none at again le h = h
earlier (some prev) at again le h = ground arith

-- The time at which a user was delivered a message.
abbrev pub delivery_time : MessageDocument → String → Option ℕ
delivery_time msg user_id = elim msg.receipts_by_user_id [
  | none ↦ none
  | some receipts ↦ elim (receipts user_id) [ none ↦ none | some e ↦ e.delivered_at ]
]

abbrev pub reaches : Option ℕ → ℕ → Bool
reaches none at = false
reaches (some time) at = not (ltb time at)

entry_of-delivery_time :
    (msg : MessageDocument) (user_id : String)
    → (entry_of msg user_id).delivered_at ≡ delivery_time msg user_id
entry_of-delivery_time msg user_id = elim (Option-cases msg.receipts_by_user_id) [
  | inl e ↦ ground (arith, e)
  | inr (receipts, e) ↦ ground (arith, e, Option-cases (receipts user_id))
]

is_at_least-reaches : (o : Option ℕ) (at : ℕ) → is_at_least o at ≡ reaches o at
is_at_least-reaches none at = refl
is_at_least-reaches (some time) at = ground arith

reaches-time :
    (o : Option ℕ) (at : ℕ) → reaches o at ≡ true → (time : ℕ) × (o ≡ some time) × (at ≤ time)
reaches-time none at h = absurd (ground (arith, h))
reaches-time (some time) at h = (time, refl, ground (arith, h))

module _ (db : Database) (lawful : IsLawfulDatabase db) where
  -- The world after a receipt is written.
  abbrev pub with_receipt : ReceiptField → ReceiptRequest → ℕ → World db → World db
  with_receipt field r at w = record w {
    messages =
        db.messages.update_one r.message_id (set_receipt_time field r.actor_user_id at) w.messages;
  }

  find-with_receipt :
      (field : ReceiptField) (r : ReceiptRequest) (at : ℕ) (w : World db) (msg : MessageDocument)
      → db.messages.find_one r.message_id w.messages ≡ some msg
      → db.messages.find_one r.message_id (with_receipt field r at w).messages
        ≡ some (set_receipt_time field r.actor_user_id at msg)
  unfolding set_receipt_time
  find-with_receipt field r at w msg h =
      lawful.messages.find-update r.message_id (set_receipt_time field r.actor_user_id at)
        w.messages msg (λ _. refl) h

  module _ (r : ReceiptRequest) (at : ℕ) (w : World db) (conv : ConversationDocument)
      (entitled : IsAuthorized db r w conv) (trimmed : trim r.message_id ≡ r.message_id) where
    found : db.messages.find_one r.message_id w.messages ≡ some entitled.message
    found = rw (sym trimmed) entitled.message_found

    -- The handler once the actor is entitled.
    delivered-entitled :
        process_message_delivered db r at w
        ≡ and_then
            (map_receipt_failure db
              (set_receipt db delivered_field r.message_id r.conversation_id r.actor_user_id at w))
            (λ changed. publish_if db changed r message_delivered at conv)
    unfolding process_message_delivered
    delivered-entitled =
        rw (authorize_complete db r w conv entitled, process_message_delivered) refl

    delivered-kept :
        is_at_least (entry_of entitled.message r.actor_user_id).delivered_at at ≡ true
        → process_message_delivered db r at w ≡ (ok tt, w)
    delivered-kept h =
        delivered-entitled
        ∙ ap
            (λ x.
              and_then (map_receipt_failure db x)
                (λ changed. publish_if db changed r message_delivered at conv))
            (set_receipt-kept db delivered_field r at w entitled.message found
              entitled.in_conversation h)

    delivered-written :
        is_at_least (entry_of entitled.message r.actor_user_id).delivered_at at ≡ false
        → w.connected ≡ true
        → process_message_delivered db r at w ≡ (
          ok tt,
          record (with_receipt delivered_field r at w) {
            published = w.published ++ map (receipt_to r message_delivered at) conv.participant_ids;
          },
        )
    delivered-written h c =
        delivered-entitled
        ∙ ap
            (λ x.
              and_then (map_receipt_failure db x)
                (λ changed. publish_if db changed r message_delivered at conv))
            (set_receipt-written db delivered_field r at w entitled.message found
              entitled.in_conversation h)
        ∙ publish_receipt-appends db r message_delivered at conv.participant_ids
            (with_receipt delivered_field r at w) c

  -- The receipt is there, and what was published.
  pub record IsDelivered (r : ReceiptRequest) (at : ℕ) (w : World db) (conv : ConversationDocument)
      (before : Option ℕ) (result : Outcome {0} Unit × World db) : Type 0 where
    pub returned : result.0 ≡ ok tt
    pub message : MessageDocument
    pub stored : db.messages.find_one r.message_id result.1.messages ≡ some message
    pub in_conversation : message.conversation_id ≡ r.conversation_id
    pub time : ℕ
    pub delivered : delivery_time message r.actor_user_id ≡ some time
    pub no_earlier : at ≤ time
    pub fan_out : result.1.published ≡ (
        if reaches before at
        then w.published
        else w.published ++ map (receipt_to r message_delivered at) conv.participant_ids)

  -- For an entitled actor, with a broker channel and a message id without outer spaces, the handler
  -- returns; the message then has a delivery time of the actor that is no earlier than `at`; and each
  -- participant of the conversation is sent the event once, unless the message had such a time before.
  pub process_message_delivered-IsDelivered :
      (r : ReceiptRequest) (at : ℕ) (w : World db) (conv : ConversationDocument)
      (entitled : IsAuthorized db r w conv)
      → trim r.message_id ≡ r.message_id
      → w.connected ≡ true
      → IsDelivered r at w conv
          (delivery_time entitled.message r.actor_user_id)
          (process_message_delivered db r at w)
  unfolding set_receipt_time
  process_message_delivered-IsDelivered r at w conv entitled t c =
      let before = delivery_time entitled.message r.actor_user_id in
      let same =
        ap (λ o. is_at_least o at) (entry_of-delivery_time entitled.message r.actor_user_id)
        ∙ is_at_least-reaches before at in
      elim (Bool-cases (reaches before at)) [
        | inl e ↦
            let (time, has, le) = reaches-time before at e in
            rw (delivered-kept r at w conv entitled t (same ∙ e)) (record {
              returned = refl;
              message = entitled.message;
              stored = found r at w conv entitled t;
              in_conversation = entitled.in_conversation;
              time = time;
              delivered = has;
              no_earlier = le;
              fan_out = rw e refl;
            })
        | inr e ↦
            let written = set_receipt_time delivered_field r.actor_user_id at entitled.message in
            rw (delivered-written r at w conv entitled t (same ∙ e) c) (record {
              returned = refl;
              message = written;
              stored =
                  find-with_receipt delivered_field r at w entitled.message
                    (found r at w conv entitled t);
              in_conversation = entitled.in_conversation;
              time = at;
              delivered =
                  sym (entry_of-delivery_time written r.actor_user_id)
                  ∙ time_of-set_receipt_time delivered_field r.actor_user_id at entitled.message;
              no_earlier = omega arith;
              fan_out = rw e refl;
            })
      ]

  -- The actor is still entitled after the receipt is written.
  still_entitled :
      (r : ReceiptRequest) (at : ℕ) (w : World db) (conv : ConversationDocument)
      (entitled : IsAuthorized db r w conv) (published : List Published)
      → trim r.message_id ≡ r.message_id
      → (after : IsAuthorized db r
          (record (with_receipt delivered_field r at w) { published = published })
          conv)
        × (is_at_least (entry_of after.message r.actor_user_id).delivered_at at ≡ true)
  unfolding set_receipt_time
  still_entitled r at w conv entitled published t = (
    record {
      named = entitled.named;
      found = entitled.found;
      is_direct = entitled.is_direct;
      participant = entitled.participant;
      message = set_receipt_time delivered_field r.actor_user_id at entitled.message;
      message_found =
          rw (t, find_message_by_id)
            (find-with_receipt delivered_field r at w entitled.message
              (found r at w conv entitled t));
      in_conversation = entitled.in_conversation;
      of_other = entitled.of_other;
    },
    rw (time_of-set_receipt_time delivered_field r.actor_user_id at entitled.message)
        (ground arith),
  )

  -- For an entitled actor, with a broker channel and a message id without outer spaces, a repeated
  -- request whose time is no later than the first changes nothing and publishes nothing.
  pub process_message_delivered-idempotent :
      (r : ReceiptRequest) (at again : ℕ) (w : World db) (conv : ConversationDocument)
      → IsAuthorized db r w conv
      → trim r.message_id ≡ r.message_id
      → w.connected ≡ true
      → again ≤ at
      → process_message_delivered db r again (process_message_delivered db r at w).1
        ≡ (ok tt, (process_message_delivered db r at w).1)
  unfolding set_receipt_time
  process_message_delivered-idempotent r at again w conv entitled t c le =
      elim (Bool-cases (is_at_least (entry_of entitled.message r.actor_user_id).delivered_at at)) [
        | inl e ↦ rw (delivered-kept r at w conv entitled t e) (
            delivered-kept r again w conv entitled t
              (earlier (entry_of entitled.message r.actor_user_id).delivered_at at again le e))
        | inr e ↦ rw (delivered-written r at w conv entitled t e c) (
            let (after, e) = still_entitled r at w conv entitled _ t in
            delivered-kept r again _ conv after t
              (earlier (entry_of after.message r.actor_user_id).delivered_at at again le e))
      ]
