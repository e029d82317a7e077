-- ===== src/Api/Send/Laws.antt =====
-- What a sent message is.
use Prim.Native.String
use messaging_system.Common.{
  ◌≡◌, refl, ℕ, String, true, false, Option, none, some, List, [], ◌∷◌, ◌++◌, is_empty, ◌==◌,
  if◌then◌else◌, arith, Bool-cases, Option-cases, inl, inr, ap, sym, ◌∙◌, trim_or_empty,
  trim-trim_or_empty,
}
use mathlib.Core.List.{append_assoc}
use messaging_system.Api.Service.{Outcome, ok, failed, and_then}
use messaging_system.Api.Documents.{MessageDocument, ConversationDocument, UserDocument}
use messaging_system.Api.Mongo.{Database, World, IsLawfulDatabase, Published, message_api}
use messaging_system.Api.Receipts.{publish_message}
use messaging_system.Api.Send.{
  new_message, find_user_by_id, insert_message, insert_direct_message_and_publish,
  find_or_create_direct_conversation, check_recipient, send_to_recipient, direct_recipient,
  send_to_conversation, send_message_for_user,
}
use messaging_system.Api.Send.Addressing.{IsAddressed, direct_recipient-ok}
use messaging_system.Api.Send.Request.{
  SendMessageRequest, Sources, NewMessage, new_document, has_hybrid_envelope, normalize_text,
  to_recipient, to_sender, assert_guest_guest_direct_messaging_allowed,
}

-- A chain that returns had a first call that returned.
and_then-ok {ℓ μ} :
    {W : Type ℓ} {A : Type 0} {B : Type 0} {P : Type μ} (x : Outcome A × W)
    (k : A → W → Outcome B × W) (b : B) (w' : W)
    → and_then x k ≡ (ok b, w')
    → ((a : A) (w : W) → x ≡ (ok a, w) → k a w ≡ (ok b, w') → P)
    → P
and_then-ok (failed e, w) k b w' h c = ground arith
and_then-ok (ok a, w) k b w' h c = c a w refl h

-- The same where the first call only reads.
and_then_read-ok {ℓ μ} :
    {W : Type ℓ} {A : Type 0} {B : Type 0} {P : Type μ} (o : Outcome A) (w : W)
    (k : A → W → Outcome B × W) (b : B) (w' : W)
    → and_then (o, w) k ≡ (ok b, w')
    → ((a : A) → o ≡ ok a → k a w ≡ (ok b, w') → P)
    → P
and_then_read-ok (failed e) w k b w' h c = ground arith
and_then_read-ok (ok a) w k b w' h c = c a refl h

returned {ℓ} :
    {W : Type ℓ} {A : Type 0} (a b : A) (w w' : W)
    → ◌≡◌ {A = Outcome A × W} (ok a, w) (ok b, w')
    → (a ≡ b) × (w ≡ w')
returned a b w w' h = (ground arith, ap (λ x. x.1) h)

-- A text without the white space around it, if anything is left.
abbrev pub trimmed : Option String → Option String
trimmed o = if is_empty (trim_or_empty o) then none else some (trim_or_empty o)

normalize_text-trimmed : (o : Option String) → normalize_text o ≡ trimmed o
normalize_text-trimmed none = refl
normalize_text-trimmed (some s) = refl

module _ (db : Database) (lawful : IsLawfulDatabase db) where
  -- What the sockets of a user are sent of a message.
  abbrev pub message_to : String → Option String → MessageDocument → Published
  message_to user_id skip_socket_id doc = record {
    routing_key = String.◌++◌ "message.user." user_id;
    payload = message_api (record {
      id = doc.id;
      conversation_id = doc.conversation_id;
      sender_id = doc.sender_id;
      body = doc.body;
      media_key = doc.media_key;
      created_at = doc.created_at;
      encrypted_message_keys = doc.encrypted_message_keys;
      iv = doc.iv;
      algorithm = doc.algorithm;
    });
    skip_socket_id = skip_socket_id;
  }

  -- The document is stored; the two publishes are the last.
  pub record IsStored (recipient : String) (origin : Option String) (doc : MessageDocument)
      (w : World db) (w' : World db) : Type 0 where
    pub stored : db.messages.find_one doc.id w'.messages ≡ some doc
    pub published_both :
        w'.published
        ≡ w.published ++ message_to recipient none doc ∷ message_to doc.sender_id origin doc ∷ []

  insert_message-ok :
      (p : NewMessage) (sources : Sources) (w : World db) (doc : MessageDocument) (w' : World db)
      → insert_message db p sources w ≡ (ok doc, w')
      → (doc ≡ new_document p sources)
        × (db.messages.find_one doc.id w'.messages ≡ some doc)
        × (w'.published ≡ w.published)
  unfolding insert_message
  insert_message-ok p sources w doc w' =
      elim (Option-cases (db.messages.insert_one (new_document p sources) w.messages)) [
        | inl e ↦ rw (e, insert_message) (λ h. ground arith)
        | inr (t, e) ↦
            rw (e, insert_message)
              (λ h.
                let (same, after) = returned _ _ _ _ h in
                rw (← same, ← after)
                  (refl, lawful.messages.find-insert (new_document p sources) w.messages t e, refl))
      ]

  publish_message-ok :
      (p : Published) (w : World db) (w' : World db)
      → publish_message db p w ≡ (ok tt, w')
      → (w'.messages ≡ w.messages) × (w'.published ≡ w.published ++ p ∷ [])
  unfolding publish_message
  publish_message-ok p w w' = elim (Bool-cases w.connected) [
    | inr e ↦ rw e (λ h. ground arith)
    | inl e ↦ rw e (λ h. rw (← (returned _ _ _ _ h).1) (refl, refl))
  ]

  check_recipient-ok :
      (sender : UserDocument) (recipient_id : String) (w : World db)
      → check_recipient db sender recipient_id w ≡ ok tt
      → (recipient : UserDocument) × (find_user_by_id db recipient_id w ≡ some recipient)
        × (sender.is_guest ≡ recipient.is_guest)
  unfolding check_recipient assert_guest_guest_direct_messaging_allowed
  check_recipient-ok sender recipient_id w =
      elim (Option-cases (find_user_by_id db recipient_id w)) [
        | inl e ↦ rw (e, check_recipient) (λ h. ground arith)
        | inr (r, e) ↦ rw (e, check_recipient) (λ h. (r, refl, ground arith))
      ]

  find_or_create-published :
      (a b : String) (exp : Option ℕ) (sources : Sources) (w : World db)
      (conv : ConversationDocument) (w' : World db)
      → find_or_create_direct_conversation db a b exp sources w ≡ (ok conv, w')
      → (w'.published ≡ w.published) × (w'.users ≡ w.users)
  unfolding find_or_create_direct_conversation
  find_or_create-published a b exp sources w conv w' h = ground arith

  insert_and_publish-ok :
      (recipient : String) (p : NewMessage) (origin : Option String) (sources : Sources)
      (w : World db) (doc : MessageDocument) (w' : World db)
      → insert_direct_message_and_publish db recipient p origin sources w ≡ (ok doc, w')
      → (doc ≡ new_document p sources) × IsStored recipient origin doc w w'
  unfolding insert_direct_message_and_publish
  insert_and_publish-ok recipient p origin sources w doc w' h =
      and_then-ok _ _ doc w' h λ d w1 e1 h. and_then-ok _ _ doc w' h λ _ w2 e2 h.
        and_then-ok _ _ doc w' h λ _ w3 e3 h.
          let i = insert_message-ok p sources w d w1 e1 in
          let p2 = publish_message-ok (to_recipient recipient d) w1 w2 e2 in
          let p3 = publish_message-ok (to_sender origin d) w2 w3 e3 in
          let (same, after) = returned _ _ _ _ h in
          rw (← same, ← after)
            (
              i.0,
              record {
                stored = ap (λ s. db.messages.find_one d.id s) (p3.0 ∙ p2.0) ∙ i.1;
                published_both =
                    p3.1
                    ∙ ap (λ (l : List Published). l ++ to_sender origin d ∷ [])
                        (p2.1 ∙ ap (λ (l : List Published). l ++ to_recipient recipient d ∷ []) i.2)
                    ∙ append_assoc w.published (to_recipient recipient d ∷ [])
                        (to_sender origin d ∷ []);
              },
            )

  -- The message of a request, sent by one user to another whom it may write to.
  pub record IsSent (sender_id : String) (payload : SendMessageRequest) (origin : Option String)
      (w : World db) (doc : MessageDocument) (w' : World db) : Type 0 where
    pub sender : UserDocument
    pub sender_found : find_user_by_id db sender_id w ≡ some sender
    pub recipient_id : String
    pub recipient : UserDocument
    pub recipient_found : find_user_by_id db recipient_id w ≡ some recipient
    pub same_kind : sender.is_guest ≡ recipient.is_guest
    pub addressed : IsAddressed db sender_id payload recipient_id w doc
    pub not_self : (recipient_id == sender_id) ≡ false
    pub by_sender : doc.sender_id ≡ sender_id
    pub text : doc.body ≡ trimmed payload.body
    pub media :
        doc.media_key ≡ (if has_hybrid_envelope payload then none else trimmed payload.media_key)
    pub no_receipts : doc.receipts_by_user_id ≡ none
    pub is_stored : IsStored recipient_id origin doc w w'

  module _ (sources : Sources) (sender : UserDocument) (sender_id : String)
      (payload : SendMessageRequest) (origin : Option String) (w : World db) (doc : MessageDocument)
      (w' : World db) (known : find_user_by_id db sender_id w ≡ some sender) where
    -- A branch ends with an insert over a world that has the same publishes.
    sent :
        (recipient_id conversation_id : String) (exp : Option ℕ) (w1 : World db)
        → (doc.conversation_id ≡ conversation_id
            → IsAddressed db sender_id payload recipient_id w doc)
        → (recipient_id == sender_id) ≡ false
        → w1.published ≡ w.published
        → check_recipient db sender recipient_id w ≡ ok tt
        → insert_direct_message_and_publish db recipient_id
            (new_message db sender_id payload conversation_id exp)
            origin
            sources
            w1
          ≡ (ok doc, w')
        → IsSent sender_id payload origin w doc w'
    sent recipient_id conversation_id exp w1 addressed not_self before checked h =
        let (same, st) = insert_and_publish-ok recipient_id _ origin sources w1 doc w' h in
        let (recipient, found, kind) = check_recipient-ok sender recipient_id w checked in
        record {
          sender = sender;
          sender_found = known;
          recipient_id = recipient_id;
          recipient = recipient;
          recipient_found = found;
          same_kind = kind;
          addressed = addressed (ap (λ (d : MessageDocument). d.conversation_id) same);
          not_self = not_self;
          by_sender = ap (λ (d : MessageDocument). d.sender_id) same;
          text = ap (λ (d : MessageDocument). d.body) same ∙ normalize_text-trimmed payload.body;
          media =
              ap (λ (d : MessageDocument). d.media_key) same
              ∙ ap (λ t. if has_hybrid_envelope payload then none else t)
                  (normalize_text-trimmed payload.media_key);
          no_receipts = ap (λ (d : MessageDocument). d.receipts_by_user_id) same;
          is_stored = record {
            stored = st.stored;
            published_both =
                st.published_both
                ∙ ap
                    (λ (l : List Published).
                      l
                      ++ message_to recipient_id none doc
                        ∷ message_to doc.sender_id origin doc
                        ∷ [])
                    before;
          };
        }

    send_to_conversation-IsSent :
        is_empty (trim_or_empty payload.recipient_user_id) ≡ true
        → send_to_conversation db sources sender sender_id payload
            (trim_or_empty payload.conversation_id)
            origin
            w
          ≡ (ok doc, w')
        → IsSent sender_id payload origin w doc w'
    unfolding send_to_conversation
    send_to_conversation-IsSent unnamed h =
        let conv_raw = trim_or_empty payload.conversation_id in
        and_then_read-ok (direct_recipient db sender_id conv_raw w) w _ doc w' h λ target e1 h.
          let (found, is_direct, sends, listed, differs) =
            direct_recipient-ok db sender_id conv_raw target.1 w target.0 e1 in
          let named =
            ap (λ k. db.conversations.find_one k w.conversations)
              (sym (trim-trim_or_empty payload.conversation_id))
            ∙ found in
          and_then_read-ok (check_recipient db sender target.1 w) w _ doc w' h λ _ e2 h.
            sent target.1 target.0.id _ w
              (λ same. inr (unnamed, (target.0, named, is_direct, sends, listed, same))) differs
              refl e2 h

    send_to_recipient-IsSent :
        (recip_raw : String)
        → is_empty (trim_or_empty payload.recipient_user_id) ≡ false
        → recip_raw ≡ trim_or_empty payload.recipient_user_id
        → send_to_recipient db sources sender sender_id payload recip_raw origin w ≡ (ok doc, w')
        → IsSent sender_id payload origin w doc w'
    unfolding send_to_recipient
    send_to_recipient-IsSent recip_raw named same = elim (Bool-cases (recip_raw == sender_id)) [
      | inl e ↦ rw (e, send_to_recipient) (λ h. ground arith)
      | inr e ↦
          rw (e, send_to_recipient)
            (λ h. and_then_read-ok (check_recipient db sender recip_raw w) w _ doc w' h λ _ e1 h.
              and_then-ok (find_or_create_direct_conversation db sender_id recip_raw _ sources w) _
                doc w' h
                λ conv w2 e2 h.
                  sent recip_raw conv.id _ w2 (λ _. inl (named, same)) e
                    (find_or_create-published sender_id recip_raw _ sources w conv w2 e2).0 e1 h)
    ]

  -- A send that returns was by a user to another, both guests or both registered: to the one that the
  -- request names, else to the other participant of the direct conversation that it names, to which the
  -- message then belongs. The message that it returns has that sender, the trimmed body, no receipts,
  -- and no media key where the request has a hybrid envelope, else the trimmed one; it is stored; and it
  -- was published to the recipient and then, but for the socket it came from, to the sender, in this
  -- order and nothing else.
  pub send_message_for_user-IsSent :
      (sources : Sources) (sender_id : String) (payload : SendMessageRequest)
      (origin : Option String) (w : World db) (doc : MessageDocument) (w' : World db)
      → send_message_for_user db sources sender_id payload origin w ≡ (ok doc, w')
      → IsSent sender_id payload origin w doc w'
  unfolding send_message_for_user
  send_message_for_user-IsSent sources sender_id payload origin w doc w' =
      elim (Option-cases (find_user_by_id db sender_id w)) [
        | inl e ↦ rw (e, send_message_for_user) (λ h. ground arith)
        | inr (sender, e) ↦
            rw (e, send_message_for_user)
              (elim (Bool-cases (is_empty (trim_or_empty payload.recipient_user_id))) [
                | inr r ↦ rw r (
                    send_to_recipient-IsSent sources sender sender_id payload origin w doc w' e
                      (trim_or_empty payload.recipient_user_id) r refl)
                | inl r ↦
                    rw r (elim (Bool-cases (is_empty (trim_or_empty payload.conversation_id))) [
                      | inr c ↦ rw c (
                          send_to_conversation-IsSent sources sender sender_id payload origin w doc
                            w' e r)
                      | inl c ↦ rw c (λ h. ground arith)
                    ])
              ])
      ]
