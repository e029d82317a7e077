-- ===== src/Web/Messaging/Laws/Tests.antt =====
-- Concrete runs of the messaging slice, and its theorems at concrete inputs.
use messaging_system.Common.{
  is_empty, trim_or_empty, if◌then◌else◌, ◌≡◌, refl, true, none, some, List, [], ◌∷◌, inl, contains,
  without, index_of, starts_with, trim, IsDistinct,
}
use messaging_system.Web.Messaging.State.{
  Message, StoredMessage, stored, MessageReceiptSummary, MessagingState, initial_state,
  message_hybrid_algorithm, is_message_wire_e2ee,
}
use messaging_system.Web.Messaging.Merge.{
  dedupe_ids_stable, merge_server_message_with_optimistic_client_fields,
  merge_own_hybrid_wire_body_from_optimistic, set_sender_plaintext_after_optimistic_merge,
  merge_hydrate_fetched_with_existing,
}
use messaging_system.Web.Messaging.Hydrate.{
  drop_one, drop_stale, store_fetched_one, store_fetched, hydrate_messages_from_fetch,
}
use messaging_system.Web.Messaging.Thread.{
  settle, settle_echo, echo, append_incoming_message_if_new, append_message_from_send,
  replace_optimistic_message, shift_orphans, adopt_id, acked_ids,
}
use messaging_system.Web.Messaging.Receipts.{
  delivered, seen, merge_receipt_fanout_from_socket, merge_receipt_summaries_from_fetch,
}
use messaging_system.Web.Messaging.Reducer.{
  Action, append_send, append_incoming, acked, hydrate, messaging_reducer,
}
use messaging_system.Web.Messaging.Laws.WellFormed.{
  ids, IsCoherent, append_message_from_send-IsCoherent,
}
use messaging_system.Web.Messaging.Laws.Runs.{
  run, AllAdmissible, run-IsCoherent, initial_state-IsCoherent,
}
use messaging_system.Web.Messaging.Laws.Race.{
  IsAwaited, ack_then_echo, echo_then_ack, ack-echo_commute, ack-echo_row,
  append_incoming_message_if_new_idempotent,
}
use messaging_system.Web.Messaging.Laws.Merging.{
  merge_hydrate-keeps_envelope, merge_server-client_fields,
}
use messaging_system.Web.Messaging.Laws.Receipts.{
  entry, has_time, merge_receipt_fanout-order, merge_receipt_summaries-keeps,
}

abbrev answer : Message
answer = record {
  id = "m1";
  conversation_id = "c1";
  sender_id = "me";
  body = some "b2s=";
  media_key = none;
  encrypted_message_keys = some (("d1", "w") ∷ []);
  iv = some "iv";
  algorithm = some message_hybrid_algorithm;
  created_at = "t1";
}

abbrev typed : StoredMessage
typed = record {
  message = record {
    id = "client:1";
    conversation_id = "c1";
    sender_id = "me";
    body = some "hello";
    media_key = some "users/me/a.png";
    encrypted_message_keys = none;
    iv = none;
    algorithm = none;
    created_at = "t0";
  };
  media_preview_url = some "blob:1";
}

abbrev older : Message
older = record answer { id = "m0"; sender_id = "peer" }

abbrev plain_fetch : Message
plain_fetch = record answer {
  body = none;
  encrypted_message_keys = none;
  iv = none;
  algorithm = none;
}

abbrev acts : List Action
acts =
    append_send "c1" typed
    ∷ append_incoming answer (some "me")
    ∷ acked "c1" "client:1" answer
    ∷ hydrate "c1" (answer ∷ older ∷ []) (some "me")
    ∷ []

acts_admissible : AllAdmissible acts initial_state
unfolding messaging_reducer append_message_from_send append_incoming_message_if_new echo settle_echo
    settle shift_orphans adopt_id index_of without dedupe_ids_stable contains starts_with trim
    replace_optimistic_message acked_ids set_sender_plaintext_after_optimistic_merge
    merge_server_message_with_optimistic_client_fields merge_own_hybrid_wire_body_from_optimistic
    is_message_wire_e2ee
acts_admissible = (
  (refl, refl, λ k. refl),
  (
    refl,
    (
      (refl, refl, refl, refl),
      (
        record {
          own = (refl, (refl, tt));
          once = (refl, (refl, tt));
          server = (refl, (refl, tt));
          free = (refl, (refl, tt));
        },
        tt,
      ),
    ),
  ),
)

run-IsCoherent_example : IsCoherent (run acts initial_state)
run-IsCoherent_example = run-IsCoherent acts acts_admissible

listed_after_acts : ids (run acts initial_state) "c1" ≡ "m0" ∷ "m1" ∷ []
unfolding run messaging_reducer append_message_from_send append_incoming_message_if_new echo
    settle_echo settle shift_orphans adopt_id index_of without dedupe_ids_stable contains
    starts_with trim replace_optimistic_message acked_ids
    set_sender_plaintext_after_optimistic_merge merge_server_message_with_optimistic_client_fields
    merge_own_hybrid_wire_body_from_optimistic hydrate_messages_from_fetch drop_stale drop_one
    store_fetched store_fetched_one
listed_after_acts = refl

abbrev waiting : MessagingState
waiting = append_message_from_send "c1" typed initial_state

waiting-IsAwaited : IsAwaited "client:1" [] typed answer (some "me") waiting
unfolding append_message_from_send contains starts_with trim
waiting-IsAwaited = record {
  coherent =
      append_message_from_send-IsCoherent "c1" typed initial_state initial_state-IsCoherent refl
        refl (λ k. refl);
  own = refl;
  new = refl;
  head = refl;
  row = refl;
}

ack-echo_commute_example :
    (ids (ack_then_echo "client:1" answer (some "me") waiting) "c1"
      ≡ ids (echo_then_ack "client:1" answer (some "me") waiting) "c1")
    × IsDistinct (ids (echo_then_ack "client:1" answer (some "me") waiting) "c1")
ack-echo_commute_example =
    ack-echo_commute "client:1" [] typed answer (some "me") waiting waiting-IsAwaited "c1"

ack-echo_row_example :
    ((ack_then_echo "client:1" answer (some "me") waiting).messages_by_id "m1"
      ≡ some (merge_server_message_with_optimistic_client_fields answer (some typed)))
    × ((echo_then_ack "client:1" answer (some "me") waiting).messages_by_id "m1"
        ≡ some (merge_server_message_with_optimistic_client_fields answer none))
ack-echo_row_example = ack-echo_row "client:1" [] typed answer (some "me") waiting waiting-IsAwaited

append_incoming_message_if_new_idempotent_example :
    append_incoming_message_if_new older none (append_incoming_message_if_new older none waiting)
    ≡ append_incoming_message_if_new older none waiting
append_incoming_message_if_new_idempotent_example =
    append_incoming_message_if_new_idempotent older none waiting

merge_hydrate-keeps_envelope_example :
    is_message_wire_e2ee
      (merge_hydrate_fetched_with_existing (some (stored answer)) plain_fetch).message
    ≡ true
unfolding is_message_wire_e2ee trim
merge_hydrate-keeps_envelope_example =
    merge_hydrate-keeps_envelope (stored answer) plain_fetch refl (inl refl)

merge_server-client_fields_example :
    let kept = merge_server_message_with_optimistic_client_fields answer (some typed) in
    let bare = merge_server_message_with_optimistic_client_fields answer none in
    (kept.body ≡ typed.body)
    × (kept.media_key ≡ typed.media_key)
    × (kept.media_preview_url ≡ (
        if is_empty (trim_or_empty typed.media_preview_url)
        then none
        else some (trim_or_empty typed.media_preview_url)))
    × (bare.body ≡ answer.body)
    × (bare.media_key ≡ none)
    × (bare.media_preview_url ≡ none)
unfolding is_message_wire_e2ee trim
merge_server-client_fields_example = merge_server-client_fields answer typed refl refl refl refl

abbrev read_page : List MessageReceiptSummary
read_page =
    record {
      message_id = "client:1";
      conversation_id = "c1";
      created_at = "t0";
      receipts_by_user_id = none;
    }
    ∷ []

abbrev receipted : MessagingState
receipted = merge_receipt_fanout_from_socket "client:1" "c1" "peer" "t2" seen waiting

merge_receipt_fanout-order_example :
    let first_delivered =
      merge_receipt_fanout_from_socket "client:1" "c1" "peer" "t1" delivered waiting in
    let first_seen = merge_receipt_fanout_from_socket "client:1" "c1" "peer" "t2" seen waiting in
    let a = merge_receipt_fanout_from_socket "client:1" "c1" "peer" "t2" seen first_delivered in
    let b = merge_receipt_fanout_from_socket "client:1" "c1" "peer" "t1" delivered first_seen in
    (entry a "client:1" "peer" ≡ some (record { delivered_at = some "t1"; seen_at = some "t2" }))
    × (entry b "client:1" "peer" ≡ some (record { delivered_at = some "t1"; seen_at = some "t2" }))
    × (entry a "client:1" "me" ≡ entry waiting "client:1" "me")
    × (entry b "client:1" "me" ≡ entry waiting "client:1" "me")
unfolding append_message_from_send contains starts_with
merge_receipt_fanout-order_example =
    merge_receipt_fanout-order "client:1" "c1" "peer" "t1" "t2" "me" typed waiting refl refl refl

receipted_before : has_time seen (entry receipted "client:1" "peer") ≡ true
unfolding merge_receipt_fanout_from_socket append_message_from_send
receipted_before = refl

merge_receipt_summaries-keeps_example :
    has_time seen
      (entry (merge_receipt_summaries_from_fetch "c1" read_page receipted) "client:1" "peer")
    ≡ true
merge_receipt_summaries-keeps_example =
    merge_receipt_summaries-keeps seen "c1" "client:1" "peer" read_page receipted receipted_before
