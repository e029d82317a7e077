-- ===== src/Web/Messaging/Merge.antt =====
-- The merge functions of apps/web-client/src/modules/home/stores/messagingSlice.ts: an optimistic
-- row with the server's message, a stored row with a fetched one, and two receipt summaries.
use messaging_system.Common.{
  String, Option, none, some, List, [], ◌∷◌, ◌&&◌, not, Dict, put, ltb, nat_eq, trim, trim_or_empty,
  is_empty, is_truthy, if◌then◌else◌, or_else, get_or, contains,
}
use messaging_system.Web.Messaging.State.{
  Message, StoredMessage, stored, MessageReceiptEntry, MessageReceiptSummary, MessagingState,
  key_count, is_message_wire_e2ee,
}

-- `{ ...a[k], ...b[k] }`, where a missing entry has no fields
unfoldable pub merge_entry :
    Option MessageReceiptEntry → Option MessageReceiptEntry → Option MessageReceiptEntry
merge_entry none b = b
merge_entry (some a) none = some a
merge_entry (some a) (some b) = some (record {
  delivered_at = or_else b.delivered_at a.delivered_at;
  seen_at = or_else b.seen_at a.seen_at;
})

-- `r ?? {}`
abbrev pub receipts_of : Option (Dict MessageReceiptEntry) → Dict MessageReceiptEntry
receipts_of none _ = none
receipts_of (some r) u = r u

unfoldable pub merge_receipt_summary :
    MessageReceiptSummary → MessageReceiptSummary → MessageReceiptSummary
unfolding merge_entry
merge_receipt_summary existing incoming = record {
  message_id = incoming.message_id;
  conversation_id = incoming.conversation_id;
  created_at = incoming.created_at;
  receipts_by_user_id = some (λ k.
      merge_entry (receipts_of existing.receipts_by_user_id k)
        (receipts_of incoming.receipts_by_user_id k));
}

-- The loop of `dedupeIdsStable`; `seen` is its set.
unfoldable pub dedupe_from : List String → List String → List String
dedupe_from seen [] = []
dedupe_from seen (id ∷ ids) =
    let rest = dedupe_from (id ∷ seen) ids in
    let skipped = dedupe_from seen ids in if contains id seen then skipped else id ∷ rest

unfoldable pub dedupe_ids_stable : List String → List String
unfolding dedupe_from contains
dedupe_ids_stable ids = dedupe_from [] ids

unfoldable pub merge_own_hybrid_wire_body_from_optimistic : Message → Option String → Message
merge_own_hybrid_wire_body_from_optimistic server_msg none = server_msg
merge_own_hybrid_wire_body_from_optimistic server_msg (some ob) =
    if not (is_truthy server_msg.body)
    then server_msg
    else if is_empty (trim ob)
    then server_msg
    else if not (is_message_wire_e2ee server_msg)
    then server_msg
    else record server_msg { body = some ob }

-- The `mediaKey` of `mergeServerMessageWithOptimisticClientFields`.
abbrev pub pick_media_key : Option String → Option String → Option String
pick_media_key server_mk opt_mk =
    if not (is_empty (trim_or_empty server_mk))
    then server_mk
    else if not (is_empty (trim_or_empty opt_mk))
    then opt_mk
    else none

-- `optimistic?.mediaPreviewUrl?.trim()`, kept when it is not empty
abbrev pub pick_preview : Option String → Option String
pick_preview none = none
pick_preview (some p) = if is_empty (trim p) then none else some (trim p)

unfoldable pub merge_server_message_with_optimistic_client_fields :
    Message → Option StoredMessage → StoredMessage
unfolding merge_own_hybrid_wire_body_from_optimistic
merge_server_message_with_optimistic_client_fields server_msg none = record {
  message = record server_msg { media_key = pick_media_key server_msg.media_key none };
  media_preview_url = none;
}
merge_server_message_with_optimistic_client_fields server_msg (some optimistic) =
    let body_merged = merge_own_hybrid_wire_body_from_optimistic server_msg optimistic.body in
    record {
      message = record body_merged {
        media_key = pick_media_key server_msg.media_key optimistic.media_key;
      };
      media_preview_url = pick_preview optimistic.media_preview_url;
    }

-- `optimisticPrev?.body`, or '' when it is missing
abbrev pub body_of_optimistic : Option StoredMessage → String
body_of_optimistic none = ""
body_of_optimistic (some o) = get_or o.body ""

abbrev pub plain_of_merged : StoredMessage → String
plain_of_merged merged =
    if is_truthy merged.body && not (is_message_wire_e2ee merged.message)
    then get_or merged.body ""
    else ""

-- Stores the typing-time plaintext under the server's id.
unfoldable pub set_sender_plaintext_after_optimistic_merge :
    MessagingState → String → StoredMessage → Option StoredMessage → MessagingState
set_sender_plaintext_after_optimistic_merge state server_message_id merged optimistic_prev =
    let from_optimistic = body_of_optimistic optimistic_prev in
    let plain = if is_empty from_optimistic then plain_of_merged merged else from_optimistic in
    if is_empty plain then state else record state {
      sender_plaintext_by_message_id =
          put server_message_id plain state.sender_plaintext_by_message_id;
    }

unfoldable pub merge_hydrate_media_key : StoredMessage → Message → Option String
merge_hydrate_media_key existing fetched =
    if not (is_empty (trim_or_empty fetched.media_key))
    then fetched.media_key
    else if not (is_empty (trim_or_empty existing.media_key))
    then existing.media_key
    else fetched.media_key

-- The envelope of `existing` carried over to `fetched`.
abbrev pub keep_envelope : StoredMessage → Message → Message
unfolding merge_hydrate_media_key
keep_envelope existing fetched = record fetched {
  body = or_else fetched.body existing.body;
  iv = or_else existing.iv fetched.iv;
  algorithm = or_else existing.algorithm fetched.algorithm;
  encrypted_message_keys = existing.encrypted_message_keys;
  media_key = merge_hydrate_media_key existing fetched;
}

unfoldable pub merge_hydrate_fetched_with_existing : Option StoredMessage → Message → StoredMessage
unfolding keep_envelope merge_hydrate_media_key
merge_hydrate_fetched_with_existing none fetched = stored fetched
merge_hydrate_fetched_with_existing (some existing) fetched =
    let pv = pick_preview existing.media_preview_url in
    if is_message_wire_e2ee existing.message && not (is_message_wire_e2ee fetched)
    then record { message = keep_envelope existing fetched; media_preview_url = pv }
    else if is_message_wire_e2ee existing.message
        && ltb 0 (key_count existing.encrypted_message_keys)
        && nat_eq (key_count fetched.encrypted_message_keys) 0
    then record { message = keep_envelope existing fetched; media_preview_url = pv }
    else record {
      message = record fetched { media_key = merge_hydrate_media_key existing fetched };
      media_preview_url = pv;
    }
