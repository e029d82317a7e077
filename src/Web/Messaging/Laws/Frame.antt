-- ===== src/Web/Messaging/Laws/Frame.antt =====
-- The reducers that leave the threads as they are.
use messaging_system.Common.{
  ◌≡◌, refl, ◌∙◌, String, Bool, Option, List, [], ◌∷◌, arith, trim, is_empty, put, if◌then◌else◌,
}
use messaging_system.Web.Messaging.State.{
  MessageReceiptSummary, PendingDirectPeer, ScrollTargetReason, MessagingState,
}
use messaging_system.Web.Messaging.Session.{
  set_active_conversation_id, set_pending_direct_peer, record_own_send_plaintext,
  set_peer_decrypted_body, set_send_pending, set_send_error, hydrate_sender_plaintext_from_disk,
  set_conversation_scroll_target, clear_conversation_scroll_target,
}
use messaging_system.Web.Messaging.Receipts.{
  ReceiptKind, merge_receipt_fanout_from_socket, merge_receipt_summaries_from_fetch, merge_items,
  merge_item,
}
use messaging_system.Web.Messaging.Laws.WellFormed.{IsCoherent}

-- The three tables that the invariant reads.
abbrev pub SameThreads : MessagingState → MessagingState → Type 0
SameThreads s t =
    (t.messages_by_id ≡ s.messages_by_id)
    × (t.message_ids_by_conversation_id ≡ s.message_ids_by_conversation_id)
    × (t.pending_outgoing_client_ids_by_conversation_id
        ≡ s.pending_outgoing_client_ids_by_conversation_id)

pub SameThreads-IsCoherent : (s t : MessagingState) → SameThreads s t → IsCoherent s → IsCoherent t
SameThreads-IsCoherent s t (a, b, p) h = record {
  distinct = λ c. rw b (h.distinct c);
  listed = λ c id. rw (a, b) (h.listed c id);
  client = λ c id. rw p (h.client c id);
  fits = λ c id. rw (a, p) (h.fits c id);
}

module _ (s : MessagingState) where
  pub set_active_conversation_id-SameThreads :
      (c : Option String) → SameThreads s (set_active_conversation_id c s)
  unfolding set_active_conversation_id
  set_active_conversation_id-SameThreads c = ground arith

  pub set_pending_direct_peer-SameThreads :
      (p : Option PendingDirectPeer) → SameThreads s (set_pending_direct_peer p s)
  unfolding set_pending_direct_peer
  set_pending_direct_peer-SameThreads p = ground arith

  pub record_own_send_plaintext-SameThreads :
      (id t : String) → SameThreads s (record_own_send_plaintext id t s)
  unfolding record_own_send_plaintext
  record_own_send_plaintext-SameThreads id t = ground arith

  pub set_peer_decrypted_body-SameThreads :
      (id t : String) (k u : Option (Option String))
      → SameThreads s (set_peer_decrypted_body id t k u s)
  unfolding set_peer_decrypted_body
  set_peer_decrypted_body-SameThreads id t k u = ground arith

  pub set_send_pending-SameThreads :
      (c : String) (p : Bool) → SameThreads s (set_send_pending c p s)
  unfolding set_send_pending
  set_send_pending-SameThreads c p = ground arith

  pub set_send_error-SameThreads :
      (c : String) (e : Option String) → SameThreads s (set_send_error c e s)
  unfolding set_send_error
  set_send_error-SameThreads c e = ground arith

  pub set_conversation_scroll_target-SameThreads :
      (m c : String) (r : Option ScrollTargetReason)
      → SameThreads s (set_conversation_scroll_target m c r s)
  unfolding set_conversation_scroll_target
  set_conversation_scroll_target-SameThreads m c r = ground arith

  pub clear_conversation_scroll_target-SameThreads :
      SameThreads s (clear_conversation_scroll_target s)
  unfolding clear_conversation_scroll_target
  clear_conversation_scroll_target-SameThreads = ground arith

  pub merge_receipt_fanout_from_socket-SameThreads :
      (id c u at : String) (kind : ReceiptKind)
      → SameThreads s (merge_receipt_fanout_from_socket id c u at kind s)
  unfolding merge_receipt_fanout_from_socket
  merge_receipt_fanout_from_socket-SameThreads id c u at kind = ground arith

module _ (cid : String) where
  merge_item-SameThreads :
      (item : MessageReceiptSummary) (s : MessagingState) → SameThreads s (merge_item cid item s)
  unfolding merge_item
  merge_item-SameThreads item s = ground arith

  merge_items-SameThreads :
      (items : List MessageReceiptSummary) (s : MessagingState)
      → SameThreads s (merge_items cid items s)
  unfolding merge_items
  merge_items-SameThreads [] s = (refl, refl, refl)
  merge_items-SameThreads (item ∷ items) s =
      let (a, b, p) = merge_item-SameThreads item s in
      let (c, d, q) = merge_items-SameThreads items (merge_item cid item s) in (c ∙ a, d ∙ b, q ∙ p)

pub merge_receipt_summaries_from_fetch-SameThreads :
    (c : String) (items : List MessageReceiptSummary) (s : MessagingState)
    → SameThreads s (merge_receipt_summaries_from_fetch c items s)
unfolding merge_receipt_summaries_from_fetch
merge_receipt_summaries_from_fetch-SameThreads c items s =
    ground (arith, merge_items-SameThreads (trim c) items s)

disk_one : String → String → MessagingState → MessagingState
disk_one id text s =
    if is_empty (trim id)
    then s
    else record s { sender_plaintext_by_message_id = put id text s.sender_plaintext_by_message_id }

disk_one-SameThreads : (id text : String) (s : MessagingState) → SameThreads s (disk_one id text s)
unfolding disk_one
disk_one-SameThreads id text s = ground arith

pub hydrate_sender_plaintext_from_disk-SameThreads :
    (entries : List (String × String)) (s : MessagingState)
    → SameThreads s (hydrate_sender_plaintext_from_disk entries s)
unfolding hydrate_sender_plaintext_from_disk disk_one
hydrate_sender_plaintext_from_disk-SameThreads [] s = (refl, refl, refl)
hydrate_sender_plaintext_from_disk-SameThreads ((id, text) ∷ entries) s =
    let (a, b, p) = disk_one-SameThreads id text s in
    let (c, d, q) = hydrate_sender_plaintext_from_disk-SameThreads entries (disk_one id text s) in
    (c ∙ a, d ∙ b, q ∙ p)
