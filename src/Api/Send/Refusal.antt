-- ===== src/Api/Send/Refusal.antt =====
-- What a send that throws leaves behind.
use messaging_system.Common.{
  ◌≡◌, refl, ℕ, String, true, Option, is_empty, ◌==◌, arith, Bool-cases, Option-cases, inl, inr, ap,
  ◌∙◌, trim_or_empty,
}
use messaging_system.Api.Service.{Failure, Outcome, ok, failed, and_then}
use messaging_system.Api.Documents.{MessageDocument, ConversationDocument, UserDocument}
use messaging_system.Api.Mongo.{Database, World, Published}
use messaging_system.Api.Receipts.{publish_message}
use messaging_system.Api.Send.{
  find_user_by_id, insert_message, insert_direct_message_and_publish,
  find_or_create_direct_conversation, check_recipient, send_to_recipient, direct_recipient,
  send_to_conversation, send_message_for_user,
}
use messaging_system.Api.Send.Request.{
  SendMessageRequest, Sources, NewMessage, new_document, to_recipient, to_sender,
}

-- A chain that throws has a first call that throws, or one that returns.
and_then-failed {ℓ μ} :
    {W : Type ℓ} {A : Type 0} {B : Type 0} {P : Type μ} (x : Outcome A × W)
    (k : A → W → Outcome B × W) (e : Failure) (w' : W)
    → and_then x k ≡ (failed e, w')
    → (x ≡ (failed e, w') → P)
    → ((a : A) (w : W) → x ≡ (ok a, w) → k a w ≡ (failed e, w') → P)
    → P
and_then-failed (failed f, w) k e w' h c d =
    let same : f ≡ e = ground arith in
    let after : w ≡ w' = ap (λ x. x.1) h in c (rw (same, after) refl)
and_then-failed (ok a, w) k e w' h c d = d a w refl h

-- The same where the first call only reads.
and_then_read-failed {ℓ μ} :
    {W : Type ℓ} {A : Type 0} {B : Type 0} {P : Type μ} (o : Outcome A) (w : W)
    (k : A → W → Outcome B × W) (e : Failure) (w' : W)
    → and_then (o, w) k ≡ (failed e, w')
    → (w ≡ w' → P)
    → ((a : A) → k a w ≡ (failed e, w') → P)
    → P
and_then_read-failed (failed f) w k e w' h c d = c (ap (λ x. x.1) h)
and_then_read-failed (ok a) w k e w' h c d = d a h

absurd_failed {μ} : {A : Type 0} {a : A} {e : Failure} {P : Type μ} → failed e ≡ ok a → P
absurd_failed h = ground arith

module _ (db : Database) where
  -- The same messages and publishes, and the broker channel.
  abbrev pub IsQuiet : World db → World db → Type 0
  IsQuiet w w' =
      (w'.messages ≡ w.messages) × (w'.published ≡ w.published) × (w'.connected ≡ w.connected)

  quiet : (w w' : World db) → w ≡ w' → IsQuiet w w'
  quiet w w' e = rw e (refl, refl, refl)

  insert_message-failed :
      (p : NewMessage) (sources : Sources) (w : World db) (e : Failure) (w' : World db)
      → insert_message db p sources w ≡ (failed e, w')
      → IsQuiet w w'
  unfolding insert_message
  insert_message-failed p sources w e w' =
      elim (Option-cases (db.messages.insert_one (new_document p sources) w.messages)) [
        | inl f ↦ rw (f, insert_message) (λ h. quiet w w' (ap (λ x. x.1) h))
        | inr (t, f) ↦ rw (f, insert_message) (λ h. ground arith)
      ]

  find_or_create-IsQuiet :
      (a b : String) (exp : Option ℕ) (sources : Sources) (w : World db)
      (o : Outcome ConversationDocument) (w' : World db)
      → find_or_create_direct_conversation db a b exp sources w ≡ (o, w')
      → IsQuiet w w'
  unfolding find_or_create_direct_conversation
  find_or_create-IsQuiet a b exp sources w o w' h = ground arith

  insert_message-connected :
      (p : NewMessage) (sources : Sources) (w : World db) (o : Outcome MessageDocument)
      (w' : World db)
      → insert_message db p sources w ≡ (o, w')
      → w'.connected ≡ w.connected
  unfolding insert_message
  insert_message-connected p sources w o w' h = ground arith

  publish_message-returns :
      (p : Published) (w : World db) (o : Outcome {0} Unit) (w' : World db)
      → w.connected ≡ true
      → publish_message db p w ≡ (o, w')
      → (o ≡ ok tt) × (w'.connected ≡ true)
  unfolding publish_message
  publish_message-returns p w o w' c h = ground arith

  -- With a broker channel, what fails is the insert.
  insert_and_publish-failed :
      (recipient : String) (p : NewMessage) (origin : Option String) (sources : Sources)
      (w : World db) (e : Failure) (w' : World db)
      → w.connected ≡ true
      → insert_direct_message_and_publish db recipient p origin sources w ≡ (failed e, w')
      → IsQuiet w w'
  unfolding insert_direct_message_and_publish
  insert_and_publish-failed recipient p origin sources w e w' c h =
      and_then-failed (insert_message db p sources w) _ e w' h
        (insert_message-failed p sources w e w')
        λ d w1 e1 h.
          let c1 = insert_message-connected p sources w (ok d) w1 e1 ∙ c in
          and_then-failed (publish_message db (to_recipient recipient d) w1) _ e w' h
            (λ f. absurd_failed (publish_message-returns _ w1 (failed e) w' c1 f).0)
            λ _ w2 e2 h.
              let c2 = (publish_message-returns _ w1 _ w2 c1 e2).1 in
              and_then-failed (publish_message db (to_sender origin d) w2) _ e w' h
                (λ f. absurd_failed (publish_message-returns _ w2 (failed e) w' c2 f).0)
                λ _ w3 e3 h. ground arith

  send_to_conversation-failed :
      (sources : Sources) (sender : UserDocument) (sender_id : String)
      (payload : SendMessageRequest) (conv_raw : String) (origin : Option String) (w : World db)
      (e : Failure) (w' : World db)
      → w.connected ≡ true
      → send_to_conversation db sources sender sender_id payload conv_raw origin w ≡ (failed e, w')
      → IsQuiet w w'
  unfolding send_to_conversation
  send_to_conversation-failed sources sender sender_id payload conv_raw origin w e w' c h =
      and_then_read-failed (direct_recipient db sender_id conv_raw w) w _ e w' h (quiet w w')
        λ target h.
          and_then_read-failed (check_recipient db sender target.1 w) w _ e w' h (quiet w w')
            λ _ h. insert_and_publish-failed target.1 _ origin sources w e w' c h

  send_to_recipient-failed :
      (sources : Sources) (sender : UserDocument) (sender_id : String)
      (payload : SendMessageRequest) (recip_raw : String) (origin : Option String) (w : World db)
      (e : Failure) (w' : World db)
      → w.connected ≡ true
      → send_to_recipient db sources sender sender_id payload recip_raw origin w ≡ (failed e, w')
      → IsQuiet w w'
  unfolding send_to_recipient
  send_to_recipient-failed sources sender sender_id payload recip_raw origin w e w' c =
      elim (Bool-cases (recip_raw == sender_id)) [
        | inl f ↦ rw (f, send_to_recipient) (λ h. quiet w w' (ap (λ x. x.1) h))
        | inr f ↦
            rw (f, send_to_recipient)
              (λ h.
                and_then_read-failed (check_recipient db sender recip_raw w) w _ e w' h (quiet w w')
                  λ _ h.
                    and_then-failed
                      (find_or_create_direct_conversation db sender_id recip_raw _ sources w) _ e w'
                      h (find_or_create-IsQuiet sender_id recip_raw _ sources w (failed e) w')
                      λ conv w2 e2 h.
                        let q =
                          find_or_create-IsQuiet sender_id recip_raw _ sources w (ok conv) w2 e2 in
                        let i =
                          insert_and_publish-failed recip_raw _ origin sources w2 e w' (q.2 ∙ c)
                            h in
                        (i.0 ∙ q.0, i.1 ∙ q.1, i.2 ∙ q.2))
      ]

  -- A send that throws while there is a broker channel stores no message, publishes nothing and
  -- leaves the channel as it was.
  pub send_message_for_user-refused :
      (sources : Sources) (sender_id : String) (payload : SendMessageRequest)
      (origin : Option String) (w : World db) (e : Failure) (w' : World db)
      → w.connected ≡ true
      → send_message_for_user db sources sender_id payload origin w ≡ (failed e, w')
      → (w'.messages ≡ w.messages) × (w'.published ≡ w.published) × (w'.connected ≡ w.connected)
  unfolding send_message_for_user
  send_message_for_user-refused sources sender_id payload origin w e w' c =
      elim (Option-cases (find_user_by_id db sender_id w)) [
        | inl f ↦ rw (f, send_message_for_user) (λ h. quiet w w' (ap (λ x. x.1) h))
        | inr (sender, f) ↦
            rw (f, send_message_for_user)
              (elim (Bool-cases (is_empty (trim_or_empty payload.recipient_user_id))) [
                | inr r ↦ rw r (
                    send_to_recipient-failed sources sender sender_id payload
                      (trim_or_empty payload.recipient_user_id) origin w e w' c)
                | inl r ↦
                    rw r (elim (Bool-cases (is_empty (trim_or_empty payload.conversation_id))) [
                      | inr d ↦ rw d (
                          send_to_conversation-failed sources sender sender_id payload
                            (trim_or_empty payload.conversation_id) origin w e w' c)
                      | inl d ↦ rw d (λ h. quiet w w' (ap (λ x. x.1) h))
                    ])
              ])
      ]
