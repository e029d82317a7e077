-- ===== src/Web/ReadDedupe.antt =====
-- What the client takes from the receipts that it fetched in order not to send its read events
-- again: apps/web-client/src/modules/home/utils/receiptEmitGuards.ts.
pub mod Laws
mod Tests
use Prim.Native.String
use messaging_system.Common.{
  String, Bool, true, false, Option, none, some, List, [], ◌∷◌, Dict, not, ◌==◌, ◌||◌, ◌&&◌, trim,
  trim_or_empty, is_empty, starts_with, if◌then◌else◌,
}
use messaging_system.Web.Messaging.State.{Message, MessageReceiptEntry, MessageReceiptSummary}
use messaging_system.Web.ReceiptTicks.{entry_of}

unfoldable pub is_optimistic_client_message_id : String → Bool
is_optimistic_client_message_id message_id = starts_with (trim message_id) "client:"

-- `?.seenAt` of the entry of a user
abbrev pub seen_at_of : Option MessageReceiptEntry → Option String
seen_at_of none = none
seen_at_of (some e) = e.seen_at

unfoldable pub current_user_has_seen_message :
    Dict MessageReceiptSummary → String → Option String → Bool
current_user_has_seen_message receipts_by_message_id message_id current_user_id =
    let uid = trim_or_empty current_user_id in
    if is_empty uid
    then false
    else not
        (is_empty (trim_or_empty (seen_at_of (entry_of (receipts_by_message_id message_id) uid))))

pub record PeerReadHydrationFromReceipts : Type 0 where
  pub peer_message_ids_seen : List String
  pub conversation_read_cursor_key : Option String

pub record HydrateParams : Type 0 where
  pub active_conversation_id : Option String
  pub message_ids : List String
  pub messages_by_id : Dict Message
  pub receipts_by_message_id : Dict MessageReceiptSummary
  pub current_user_id : Option String

-- The message is there, of another sender, and `uid` has seen it.
unfoldable pub is_seen_peer_message : HydrateParams → String → String → Bool
unfolding current_user_has_seen_message
is_seen_peer_message params uid mid = elim (params.messages_by_id mid) [
  | none ↦ false
  | some msg ↦
      not (msg.sender_id == uid)
      && current_user_has_seen_message params.receipts_by_message_id mid (some uid)
]

unfoldable pub seen_of : HydrateParams → String → List String → List String
seen_of params uid [] = []
seen_of params uid (mid ∷ mids) =
    let rest = seen_of params uid mids in
    if is_seen_peer_message params uid mid then mid ∷ rest else rest

-- `messageIds[messageIds.length - 1]`
abbrev pub last_id : List String → Option String
last_id [] = none
last_id (mid ∷ []) = some mid
last_id (mid ∷ next ∷ mids) = last_id (next ∷ mids)

-- `${cid}:${lastId}`
abbrev pub read_cursor_key : String → String → String
read_cursor_key cid last = String.◌++◌ cid (String.◌++◌ ":" last)

unfoldable pub cursor_key : HydrateParams → String → String → Option String
cursor_key params cid uid = elim (last_id params.message_ids) [
  | none ↦ none
  | some last ↦
      if is_empty last || not (is_seen_peer_message params uid last)
      then none
      else some (read_cursor_key cid last)
]

unfoldable pub hydrate_peer_read_dedupe_from_receipts :
    HydrateParams → PeerReadHydrationFromReceipts
hydrate_peer_read_dedupe_from_receipts params =
    let cid = trim_or_empty params.active_conversation_id in
    let uid = trim_or_empty params.current_user_id in
    if is_empty cid || is_empty uid
    then record { peer_message_ids_seen = []; conversation_read_cursor_key = none }
    else record {
      peer_message_ids_seen = seen_of params uid params.message_ids;
      conversation_read_cursor_key = cursor_key params cid uid;
    }
