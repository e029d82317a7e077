-- ===== src/Api/Send/Addressing.antt =====
-- To whom a request to send is addressed.
use messaging_system.Common.{
  ◌≡◌, ◌⊎◌, inl, inr, String, true, false, some, List, [], ◌∷◌, is_empty, ◌==◌, trim, trim_or_empty,
  contains, eq_refl, arith, Bool-cases, Option-cases,
}
use messaging_system.Api.Documents.{MessageDocument, ConversationDocument}
use messaging_system.Api.Mongo.{Database, World}
use messaging_system.Api.Receipts.{lookup_conversation_by_id}
use messaging_system.Api.Send.{other_participant, direct_recipient}
use messaging_system.Api.Send.Request.{SendMessageRequest}
use messaging_system.Api.Service.{ok}

module _ (db : Database) where
  -- The recipient is the one that the request names, or else the other participant of the direct
  -- conversation that it names, which is then the message's.
  abbrev pub IsAddressed :
      String → SendMessageRequest → String → World db → MessageDocument → Type 0
  IsAddressed sender_id payload recipient_id w doc =
      ((is_empty (trim_or_empty payload.recipient_user_id) ≡ false)
        × (recipient_id ≡ trim_or_empty payload.recipient_user_id))
      ⊎ ((is_empty (trim_or_empty payload.recipient_user_id) ≡ true)
          × ((conv : ConversationDocument) × (db.conversations.find_one
                  (trim_or_empty payload.conversation_id) w.conversations
                ≡ some conv)
              × (conv.is_group ≡ false)
              × (contains sender_id conv.participant_ids ≡ true)
              × (contains recipient_id conv.participant_ids ≡ true)
              × (doc.conversation_id ≡ conv.id)))

  other_participant-differs :
      (sender_id recipient_id : String) (ids : List String)
      → other_participant db sender_id ids ≡ some recipient_id
      → (contains recipient_id ids ≡ true) × ((recipient_id == sender_id) ≡ false)
  unfolding contains
  other_participant-differs sender_id recipient_id [] h = absurd (ground (arith, h))
  other_participant-differs sender_id recipient_id (id ∷ ids) h =
      elim (Bool-cases (id == sender_id)) [
        | inl e ↦
            let (listed, differs) =
              other_participant-differs sender_id recipient_id ids (ground (arith, h, e)) in
            (ground (arith, listed), differs)
        | inr e ↦
            let same : id ≡ recipient_id = ground (arith, h, e) in
            (ground (arith, same, eq_refl recipient_id), ground (arith, same, e))
      ]

  pub direct_recipient-ok :
      (sender_id conv_raw recipient_id : String) (w : World db) (conv : ConversationDocument)
      → direct_recipient db sender_id conv_raw w ≡ ok (conv, recipient_id)
      → (db.conversations.find_one (trim conv_raw) w.conversations ≡ some conv)
        × (conv.is_group ≡ false)
        × (contains sender_id conv.participant_ids ≡ true)
        × (contains recipient_id conv.participant_ids ≡ true)
        × ((recipient_id == sender_id) ≡ false)
  unfolding direct_recipient lookup_conversation_by_id
  direct_recipient-ok sender_id conv_raw recipient_id w conv h =
      elim (Option-cases (db.conversations.find_one (trim conv_raw) w.conversations)) [
        | inl e ↦ absurd (ground (arith, h, e))
        | inr (found, e) ↦
            let same : found ≡ conv = ground (arith, h, e) in
            let other : other_participant db sender_id conv.participant_ids ≡ some recipient_id =
              ground (arith, h, e, same) in
            let (listed, differs) =
              other_participant-differs sender_id recipient_id conv.participant_ids other in
            (
              ground (arith, e, same),
              ground (arith, h, e, same),
              ground (arith, h, e, same),
              listed,
              differs,
            )
      ]
