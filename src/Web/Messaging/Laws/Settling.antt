-- ===== src/Web/Messaging/Laws/Settling.antt =====
-- What the server's answer to an optimistic send does to the thread: by the ack
-- (`replaceOptimisticMessage`) and by the echo (`appendIncomingMessageIfNew`).
use messaging_system.Common.{
  ◌≡◌, refl, String, true, false, Option, none, some, List, [], ◌∷◌, arith, Bool-cases,
  Option-cases, inl, inr, eq_iff, eq_refl, ◌==◌, contains, without, starts_with, contains-without,
  contains-head, contains-tail, put, remove, trim_or_empty, Dict,
}
use messaging_system.Web.Messaging.State.{Message, StoredMessage, MessagingState, is_own}
use messaging_system.Web.Messaging.Merge.{
  merge_server_message_with_optimistic_client_fields, set_sender_plaintext_after_optimistic_merge,
}
use messaging_system.Web.Messaging.Thread.{
  settle, settle_echo, append_plain, append_incoming_message_if_new, replace_optimistic_message,
  shift_orphans, echo,
}
use messaging_system.Web.Messaging.Laws.Ids.{contains-adopt_id, adopt_id-IsDistinct, acked_ids_lem}
use messaging_system.Web.Messaging.Laws.WellFormed.{
  is_in, is_free_for, ids, pending, IsCoherent, not-is_in_of_free, list_id-IsDistinct,
  contains-list_id,
}

pub merged-conversation_id :
    (m : Message) (o : Option StoredMessage)
    → (merge_server_message_with_optimistic_client_fields m o).conversation_id ≡ m.conversation_id
unfolding merge_server_message_with_optimistic_client_fields
merged-conversation_id m none = refl
merged-conversation_id m (some o) = ground arith

module _ (o : String) (prev : Option StoredMessage) (m : Message) (s : MessagingState) where
  pub settle-messages :
      (settle o prev m s).messages_by_id
      ≡ put m.id
          (merge_server_message_with_optimistic_client_fields m prev)
          (remove o s.messages_by_id)
  unfolding settle set_sender_plaintext_after_optimistic_merge
  settle-messages = ground arith

  pub settle-ids :
      (settle o prev m s).message_ids_by_conversation_id ≡ s.message_ids_by_conversation_id
  unfolding settle set_sender_plaintext_after_optimistic_merge
  settle-ids = ground arith

  pub settle-pending :
      (settle o prev m s).pending_outgoing_client_ids_by_conversation_id
      ≡ s.pending_outgoing_client_ids_by_conversation_id
  unfolding settle set_sender_plaintext_after_optimistic_merge
  settle-pending = ground arith

-- The queue only loses ids.
shift_orphans-subset :
    (l : List String) (by_id : Dict StoredMessage) (q : List String) (x : String)
    → contains x (shift_orphans l by_id q) ≡ true
    → contains x q ≡ true
unfolding shift_orphans contains
shift_orphans-subset l by_id [] x h = h
shift_orphans-subset l by_id (y ∷ q) x h = ground (arith, shift_orphans-subset l by_id q x)

-- Whether the messages table and the queue of a conversation allow an optimistic id to settle.
abbrev Settles : MessagingState → String → String → List String → Type 0
Settles s c o rest =
    (is_free_for c (s.messages_by_id o) ≡ true)
    × ((x : String) → contains x rest ≡ true → contains x (pending s c) ≡ true)

module _ (o : String) (rest : List String) (opt : StoredMessage) (m : Message) (s : MessagingState)
    (h : IsCoherent s) (client : starts_with m.id "client:" ≡ false)
    (missing : s.messages_by_id m.id ≡ none) (w : Settles s m.conversation_id o rest) where
  settle_echo-listed :
      (k id : String)
      → contains id (ids (settle_echo o rest opt (ids s m.conversation_id) m s) k)
        ≡ is_in k ((settle_echo o rest opt (ids s m.conversation_id) m s).messages_by_id id)
  unfolding settle_echo
  settle_echo-listed k id =
      rw (settle-messages o (some opt) m s, settle-ids o (some opt) m s)
        (ground (
          arith,
          contains-adopt_id o m.id id (ids s m.conversation_id) (h.distinct m.conversation_id),
          merged-conversation_id m (some opt),
          h.listed k id,
          h.listed k o,
          not-is_in_of_free m.conversation_id k (s.messages_by_id o) w.0,
          eq_iff m.id id,
          eq_iff o id,
          eq_iff m.conversation_id k,
        ))

  settle_echo-IsCoherent : IsCoherent (settle_echo o rest opt (ids s m.conversation_id) m s)
  unfolding settle_echo
  settle_echo-IsCoherent = record {
    distinct = λ k. rw (settle-ids o (some opt) m s) (elim (Bool-cases (m.conversation_id == k)) [
      | inl e ↦ rw e (adopt_id-IsDistinct o m.id (ids s m.conversation_id))
      | inr e ↦ rw e (h.distinct k)
    ]);
    listed = settle_echo-listed;
    client = λ k id. rw (settle-pending o (some opt) m s) (
        ground (
          arith,
          h.client k id,
          h.client m.conversation_id id,
          w.1 id,
          eq_iff m.conversation_id k,
        ));
    fits = λ k id.
        rw (settle-messages o (some opt) m s, settle-pending o (some opt) m s)
          (ground (
            arith,
            h.client k id,
            h.client m.conversation_id id,
            h.fits k id,
            h.fits m.conversation_id id,
            w.1 id,
            eq_iff m.conversation_id k,
            eq_iff m.id id,
            eq_iff o id,
          ));
  }

-- The queue and the state that the echo branch works on.
abbrev pub queue : Message → MessagingState → List String
queue m s = shift_orphans (ids s m.conversation_id) s.messages_by_id (pending s m.conversation_id)

abbrev pub shifted : Message → MessagingState → MessagingState
shifted m s = record s {
  pending_outgoing_client_ids_by_conversation_id =
      put m.conversation_id (queue m s) s.pending_outgoing_client_ids_by_conversation_id;
}

queue-subset :
    (m : Message) (s : MessagingState) (x : String)
    → contains x (queue m s) ≡ true
    → contains x (pending s m.conversation_id) ≡ true
queue-subset m s x =
    shift_orphans-subset (ids s m.conversation_id) s.messages_by_id (pending s m.conversation_id) x

-- What stands behind the echo branch: a message that no optimistic row takes.
append_plain-IsCoherent :
    (self_id : String) (m : Message) (s : MessagingState)
    → IsCoherent s
    → starts_with m.id "client:" ≡ false
    → s.messages_by_id m.id ≡ none
    → IsCoherent (append_plain self_id (ids s m.conversation_id) m s)
unfolding append_plain
append_plain-IsCoherent self_id m s h client missing = record {
  distinct = λ k. list_id-IsDistinct m.conversation_id m.id k s h;
  listed = λ k id. ground (
    arith,
    contains-list_id m.conversation_id m.id k id s,
    h.listed k id,
    eq_iff m.id id,
    eq_iff m.conversation_id k,
  );
  client = λ k id. ground (arith, h.client k id);
  fits = λ k id. ground (arith, h.fits k id, h.client k id, eq_iff m.id id);
}

-- A queue that only loses ids leaves the thread coherent.
shifted-IsCoherent :
    (c : String) (q : List String) (s : MessagingState)
    → IsCoherent s
    → ((x : String) → contains x q ≡ true → contains x (pending s c) ≡ true)
    → IsCoherent (record s {
      pending_outgoing_client_ids_by_conversation_id =
          put c q s.pending_outgoing_client_ids_by_conversation_id;
    })
shifted-IsCoherent c q s h sub = record {
  distinct = h.distinct;
  listed = h.listed;
  client = λ k id. ground (arith, sub id, h.client k id, h.client c id, eq_iff c k);
  fits = λ k id. ground (arith, sub id, h.fits k id, h.fits c id, eq_iff c k);
}

-- The two branches of an own echo.
echo-IsCoherent :
    (self_id : String) (q : List String) (m : Message) (s : MessagingState)
    → IsCoherent s
    → starts_with m.id "client:" ≡ false
    → s.messages_by_id m.id ≡ none
    → ((x : String) → contains x q ≡ true → contains x (pending s m.conversation_id) ≡ true)
    → IsCoherent (echo self_id (ids s m.conversation_id) q m s)
unfolding echo
echo-IsCoherent self_id [] m s h client missing sub =
    append_plain-IsCoherent self_id m s h client missing
echo-IsCoherent self_id (o ∷ rest) m s h client missing sub =
    elim (Option-cases (s.messages_by_id o)) [
      | inl e ↦ rw (e, echo) (append_plain-IsCoherent self_id m s h client missing)
      | inr (opt, e) ↦
          rw (e, echo)
            (settle_echo-IsCoherent o rest opt m s h client missing (
              h.fits m.conversation_id o (sub o (contains-head o rest)),
              λ x k. sub x (contains-tail x o rest k),
            ))
    ]

-- A message from Socket.IO keeps the thread coherent, whichever branch takes it.
pub append_incoming_message_if_new-IsCoherent :
    (m : Message) (user : Option String) (s : MessagingState)
    → IsCoherent s
    → starts_with m.id "client:" ≡ false
    → IsCoherent (append_incoming_message_if_new m user s)
unfolding append_incoming_message_if_new
append_incoming_message_if_new-IsCoherent m user s h client =
    elim (Option-cases (s.messages_by_id m.id)) [
      | inr (_, e) ↦ rw e h
      | inl e ↦ rw e (elim (Bool-cases (is_own (trim_or_empty user) m.sender_id)) [
        | inr f ↦ rw f (append_plain-IsCoherent (trim_or_empty user) m s h client e)
        | inl f ↦ rw f (
            echo-IsCoherent (trim_or_empty user) (queue m s) m (shifted m s)
              (shifted-IsCoherent m.conversation_id (queue m s) s h (queue-subset m s)) client e
              (λ x k. ground (arith, eq_refl m.conversation_id)))
      ])
    ]

-- The ack of a send keeps the thread coherent.
pub replace_optimistic_message-IsCoherent :
    (o : String) (m : Message) (s : MessagingState)
    → IsCoherent s
    → starts_with m.id "client:" ≡ false
    → is_free_for m.conversation_id (s.messages_by_id m.id) ≡ true
    → is_free_for m.conversation_id (s.messages_by_id o) ≡ true
    → IsCoherent (replace_optimistic_message m.conversation_id o m s)
unfolding replace_optimistic_message
replace_optimistic_message-IsCoherent o m s h client free_m free_o =
    let prev = s.messages_by_id o in
    let waiting = record s {
      pending_outgoing_client_ids_by_conversation_id =
          put m.conversation_id (without o (pending s m.conversation_id))
            s.pending_outgoing_client_ids_by_conversation_id;
    } in
    record {
      distinct = λ k. rw (settle-ids o prev m waiting) (
          rw
            (acked_ids_lem m.conversation_id o m.id k s.message_ids_by_conversation_id
              (h.distinct m.conversation_id))
            (elim (Bool-cases (m.conversation_id == k)) [
              | inl e ↦ rw e (adopt_id-IsDistinct o m.id (ids s m.conversation_id))
              | inr e ↦ rw e (h.distinct k)
            ]));
      listed = λ k id.
          rw (settle-messages o prev m waiting, settle-ids o prev m waiting)
            (ground (
              arith,
              acked_ids_lem m.conversation_id o m.id k s.message_ids_by_conversation_id
                  (h.distinct m.conversation_id),
              contains-adopt_id o m.id id (ids s m.conversation_id) (h.distinct m.conversation_id),
              merged-conversation_id m prev,
              h.listed k id,
              not-is_in_of_free m.conversation_id k (s.messages_by_id o) free_o,
              not-is_in_of_free m.conversation_id k (s.messages_by_id m.id) free_m,
              eq_iff m.id id,
              eq_iff o id,
              eq_iff m.conversation_id k,
            ));
      client = λ k id. rw (settle-pending o prev m waiting) (
          ground (
            arith,
            contains-without o id (pending s m.conversation_id),
            h.client k id,
            h.client m.conversation_id id,
            eq_iff m.conversation_id k,
          ));
      fits = λ k id.
          rw (settle-messages o prev m waiting, settle-pending o prev m waiting)
            (ground (
              arith,
              contains-without o id (pending s m.conversation_id),
              h.client k id,
              h.client m.conversation_id id,
              h.fits k id,
              h.fits m.conversation_id id,
              eq_iff m.conversation_id k,
              eq_iff m.id id,
              eq_iff o id,
            ));
    }
