-- ===== src/Web/Messaging/Laws/Race.antt =====
-- The server's answer to an optimistic send may arrive twice, by the ack and by the echo over
-- Socket.IO, in either order.
use messaging_system.Common.{
  ◌≡◌, refl, sym, ap, ◌∙◌, String, true, false, Option, none, some, List, [], ◌∷◌, arith,
  Bool-cases, Option-cases, inl, inr, eq_iff, eq_refl, ◌==◌, if◌then◌else◌, is_some, IsDistinct,
  trim_or_empty,
}
use messaging_system.Web.Messaging.State.{Message, StoredMessage, MessagingState, is_own}
use messaging_system.Web.Messaging.Merge.{merge_server_message_with_optimistic_client_fields}
use messaging_system.Web.Messaging.Thread.{
  settle_echo, echo, append_plain, append_incoming_message_if_new, replace_optimistic_message,
  shift_orphans, adopt_id,
}
use messaging_system.Web.Messaging.Laws.Ids.{
  acked_ids_lem, adopt_id-IsDistinct, adopt_id_idempotent,
}
use messaging_system.Web.Messaging.Laws.WellFormed.{ids, pending, IsCoherent}
use messaging_system.Web.Messaging.Laws.Settling.{queue, shifted, settle-messages, settle-ids}

module _ (m : Message) (user : Option String) (s : MessagingState) where
  echo-stores :
      (self_id : String) (l q : List String) (t : MessagingState)
      → is_some ((echo self_id l q m t).messages_by_id m.id) ≡ true
  unfolding echo append_plain settle_echo
  echo-stores self_id l [] t = ground (arith, eq_refl m.id)
  echo-stores self_id l (o ∷ rest) t = elim (Option-cases (t.messages_by_id o)) [
    | inl e ↦ rw (e, echo) (ground (arith, eq_refl m.id))
    | inr (opt, e) ↦
        rw (e, echo) (rw (settle-messages o (some opt) m t) (ground (arith, eq_refl m.id)))
  ]

  -- Whatever branch takes an incoming message, it is stored under its id.
  pub append_incoming_message_if_new-stores :
      is_some ((append_incoming_message_if_new m user s).messages_by_id m.id) ≡ true
  unfolding append_incoming_message_if_new append_plain
  append_incoming_message_if_new-stores = ground (
    arith,
    eq_refl m.id,
    echo-stores (trim_or_empty user) (ids s m.conversation_id) (queue m s) (shifted m s),
  )

  known-unchanged :
      (t : MessagingState)
      → is_some (t.messages_by_id m.id) ≡ true
      → append_incoming_message_if_new m user t ≡ t
  unfolding append_incoming_message_if_new
  known-unchanged t e = rw e

  -- A message that is delivered a second time changes nothing.
  pub append_incoming_message_if_new_idempotent :
      append_incoming_message_if_new m user (append_incoming_message_if_new m user s)
      ≡ append_incoming_message_if_new m user s
  append_incoming_message_if_new_idempotent =
      known-unchanged (append_incoming_message_if_new m user s)
        append_incoming_message_if_new-stores

echo-hit :
    (self_id o : String) (l rest : List String) (opt : StoredMessage) (m : Message)
    (t : MessagingState)
    → t.messages_by_id o ≡ some opt
    → echo self_id l (o ∷ rest) m t ≡ settle_echo o rest opt l m t
unfolding echo
echo-hit self_id o l rest opt m t e = rw (e, echo)

abbrev pub ack_then_echo : String → Message → Option String → MessagingState → MessagingState
ack_then_echo o m user s =
    append_incoming_message_if_new m user (replace_optimistic_message m.conversation_id o m s)

abbrev pub echo_then_ack : String → Message → Option String → MessagingState → MessagingState
echo_then_ack o m user s =
    replace_optimistic_message m.conversation_id o m (append_incoming_message_if_new m user s)

-- An own message whose optimistic row waits at the head of its conversation's queue.
pub record IsAwaited (o : String) (rest : List String) (opt : StoredMessage) (m : Message)
    (user : Option String) (s : MessagingState) : Type 0 where
  pub coherent : IsCoherent s
  pub own : is_own (trim_or_empty user) m.sender_id ≡ true
  pub new : s.messages_by_id m.id ≡ none
  pub head : pending s m.conversation_id ≡ o ∷ rest
  pub row : s.messages_by_id o ≡ some opt

module _ (o : String) (rest : List String) (opt : StoredMessage) (m : Message)
    (user : Option String) (s : MessagingState) (w : IsAwaited o rest opt m user s) where
  awaited_ne : (m.id == o) ≡ false
  awaited_ne = ground (arith, w.new, w.row, eq_iff m.id o)

  queue-awaited : queue m s ≡ o ∷ rest
  unfolding shift_orphans
  queue-awaited = rw w.head (ground (arith, w.row))

  -- The echo of an awaited message takes the branch that settles the optimistic row.
  append_incoming-awaited :
      append_incoming_message_if_new m user s
      ≡ settle_echo o rest opt (ids s m.conversation_id) m (shifted m s)
  unfolding append_incoming_message_if_new
  append_incoming-awaited =
      rw (w.new, w.own)
        (rw queue-awaited
          (echo-hit (trim_or_empty user) o (ids s m.conversation_id) rest opt m _ w.row))

  replaced-row :
      (t : MessagingState)
      → (replace_optimistic_message m.conversation_id o m t).messages_by_id m.id
        ≡ some (merge_server_message_with_optimistic_client_fields m (t.messages_by_id o))
  unfolding replace_optimistic_message
  replaced-row t = rw (settle-messages o (t.messages_by_id o) m _) (ground (arith, eq_refl m.id))

  replaced-ids :
      (t : MessagingState) (k : String)
      → IsDistinct (ids t m.conversation_id)
      → ids (replace_optimistic_message m.conversation_id o m t) k
        ≡ (if m.conversation_id == k then adopt_id o m.id (ids t m.conversation_id) else ids t k)
  unfolding replace_optimistic_message
  replaced-ids t k h =
      rw (settle-ids o (t.messages_by_id o) m _)
        (acked_ids_lem m.conversation_id o m.id k t.message_ids_by_conversation_id h)

  echoed-ids :
      (k : String)
      → ids (append_incoming_message_if_new m user s) k
        ≡ (if m.conversation_id == k then adopt_id o m.id (ids s m.conversation_id) else ids s k)
  unfolding settle_echo
  echoed-ids k =
      rw append_incoming-awaited (rw (settle-ids o (some opt) m (shifted m s)) (ground arith))

  echoed-gone : (append_incoming_message_if_new m user s).messages_by_id o ≡ none
  unfolding settle_echo
  echoed-gone =
      rw append_incoming-awaited
        (rw (settle-messages o (some opt) m (shifted m s)) (ground (arith, awaited_ne, eq_refl o)))

  second_echo : (ack_then_echo o m user s) ≡ replace_optimistic_message m.conversation_id o m s
  second_echo =
      known-unchanged m user s (replace_optimistic_message m.conversation_id o m s)
        (rw (replaced-row s) refl)

  -- What both orders leave.
  abbrev answered_ids : String → List String
  answered_ids k =
      if m.conversation_id == k then adopt_id o m.id (ids s m.conversation_id) else ids s k

  echoed-home :
      ids (append_incoming_message_if_new m user s) m.conversation_id
      ≡ adopt_id o m.id (ids s m.conversation_id)
  echoed-home = ground (arith, echoed-ids m.conversation_id, eq_refl m.conversation_id)

  echo_then_ack-ids : (k : String) → ids (echo_then_ack o m user s) k ≡ answered_ids k
  echo_then_ack-ids k = ground (
    arith,
    replaced-ids (append_incoming_message_if_new m user s) k
        (rw echoed-home (adopt_id-IsDistinct o m.id (ids s m.conversation_id))),
    echoed-home,
    echoed-ids k,
    adopt_id_idempotent o m.id (ids s m.conversation_id) (w.coherent.distinct m.conversation_id)
        awaited_ne,
  )

  ack_then_echo-ids : (k : String) → ids (ack_then_echo o m user s) k ≡ answered_ids k
  ack_then_echo-ids k = rw second_echo (replaced-ids s k (w.coherent.distinct m.conversation_id))

  answered_ids-IsDistinct : (k : String) → IsDistinct (answered_ids k)
  answered_ids-IsDistinct k = elim (Bool-cases (m.conversation_id == k)) [
    | inl e ↦ rw e (adopt_id-IsDistinct o m.id (ids s m.conversation_id))
    | inr e ↦ rw e (w.coherent.distinct k)
  ]

  -- For a new own message whose optimistic row waits at the head of its conversation's queue in a
  -- coherent state: whichever of ack and echo comes first, every conversation lists the same ids, in
  -- the same order, and no id twice.
  pub ack-echo_commute :
      (k : String)
      → (ids (ack_then_echo o m user s) k ≡ ids (echo_then_ack o m user s) k)
        × IsDistinct (ids (echo_then_ack o m user s) k)
  ack-echo_commute k = (
    ack_then_echo-ids k ∙ sym (echo_then_ack-ids k),
    rw (echo_then_ack-ids k) (answered_ids-IsDistinct k),
  )

  -- For such a message the row that the answer leaves depends on the order: with the ack first it is
  -- the server's message merged with the optimistic row; with the echo first the ack finds no
  -- optimistic row, and stores the server's message merged with none.
  pub ack-echo_row :
      ((ack_then_echo o m user s).messages_by_id m.id
        ≡ some (merge_server_message_with_optimistic_client_fields m (some opt)))
      × ((echo_then_ack o m user s).messages_by_id m.id
          ≡ some (merge_server_message_with_optimistic_client_fields m none))
  ack-echo_row = (
    rw second_echo (
        replaced-row s
        ∙ ap (λ x. some (merge_server_message_with_optimistic_client_fields m x)) w.row),
    replaced-row (append_incoming_message_if_new m user s)
        ∙ ap (λ x. some (merge_server_message_with_optimistic_client_fields m x)) echoed-gone,
  )
