-- ===== src/Web/ReadDedupe/Tests.antt =====
-- A thread of three messages: an own one, one of the peer that is not seen, and one that is.
use Prim.Native.String
use messaging_system.Common.{
  ◌≡◌, refl, ◌↔◌, String, Bool, true, false, Option, none, some, List, [], ◌∷◌, Dict, ◌==◌,
  contains, trim_or_empty, is_empty, if◌then◌else◌,
}
use messaging_system.Web.Messaging.State.{Message, MessageReceiptEntry, MessageReceiptSummary}
use messaging_system.Web.ReadDedupe.{
  HydrateParams, last_id, hydrate_peer_read_dedupe_from_receipts, seen_of, cursor_key,
  is_seen_peer_message, current_user_has_seen_message, is_optimistic_client_message_id,
}
use messaging_system.Web.ReadDedupe.Laws.{IsSeenFromPeer, hydrate_peer_read_dedupe-IsSeenFromPeer}

abbrev message_from : String → String → Message
message_from id sender = record {
  id = id;
  conversation_id = "c";
  sender_id = sender;
  body = none;
  media_key = none;
  encrypted_message_keys = none;
  iv = none;
  algorithm = none;
  created_at = "t";
}

abbrev thread_messages : Dict Message
thread_messages k =
    if k == "m1"
    then some (message_from "m1" "me")
    else if k == "m2"
    then some (message_from "m2" "peer")
    else if k == "m3"
    then some (message_from "m3" "peer")
    else none

abbrev my_receipt : Dict MessageReceiptEntry
my_receipt k =
    if k == "me" then some (record { delivered_at = some "t1"; seen_at = some "t2" }) else none

abbrev thread_receipts : Dict MessageReceiptSummary
thread_receipts k =
    if k == "m3"
    then some (record {
      message_id = "m3";
      conversation_id = "c";
      created_at = "t";
      receipts_by_user_id = some my_receipt;
    })
    else none

abbrev params : HydrateParams
params = record {
  active_conversation_id = some "c ";
  message_ids = "m1" ∷ "m2" ∷ "m3" ∷ [];
  messages_by_id = thread_messages;
  receipts_by_message_id = thread_receipts;
  current_user_id = some " me";
}

conversation_given : is_empty (trim_or_empty params.active_conversation_id) ≡ false
unfolding messaging_system.Common.trim
conversation_given = refl

user_given : is_empty (trim_or_empty params.current_user_id) ≡ false
unfolding messaging_system.Common.trim
user_given = refl

hydrate_peer_read_dedupe-IsSeenFromPeer_example :
    let cid = trim_or_empty params.active_conversation_id in
    let uid = trim_or_empty params.current_user_id in
    let hydrated = hydrate_peer_read_dedupe_from_receipts params in
    ((contains "m3" hydrated.peer_message_ids_seen ≡ true)
      ↔ ((contains "m3" params.message_ids ≡ true) × IsSeenFromPeer params uid "m3"))
    × ((hydrated.conversation_read_cursor_key ≡ some "c:m3") ↔ (
        (last : String) × (last_id params.message_ids ≡ some last)
        × (is_empty last ≡ false)
        × IsSeenFromPeer params uid last
        × (String.◌++◌ cid (String.◌++◌ ":" last) ≡ "c:m3")))
hydrate_peer_read_dedupe-IsSeenFromPeer_example =
    hydrate_peer_read_dedupe-IsSeenFromPeer params "m3" "c:m3" conversation_given user_given

last_is_recognised :
    hydrate_peer_read_dedupe_from_receipts params
    ≡ record { peer_message_ids_seen = "m3" ∷ []; conversation_read_cursor_key = some "c:m3" }
unfolding hydrate_peer_read_dedupe_from_receipts seen_of cursor_key is_seen_peer_message
    current_user_has_seen_message messaging_system.Common.trim
last_is_recognised = refl

optimistic_id : is_optimistic_client_message_id " client:1" ≡ true
unfolding is_optimistic_client_message_id messaging_system.Common.starts_with
    messaging_system.Common.trim
optimistic_id = refl
