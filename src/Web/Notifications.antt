-- ===== src/Web/Notifications.antt =====
-- The in-tab notifications, apps/web-client/src/modules/app/stores/notificationsSlice.ts. The clock
-- that stamps a row is an argument.
mod Payload
pub mod Laws
pub mod Validation
mod Tests
pub use Payload.{
  ThreadType, CallMedia, NotificationMessagePayload, NotificationCallIncomingPayload,
  ParsedNotificationPayload, notification_id,
}
use messaging_system.Common.{
  ℕ, String, Bool, List, [], ◌∷◌, ◌++◌, Dict, empty, put, remove, length, ltb, is_some,
  if◌then◌else◌,
}

abbrev pub max_inbound : ℕ
max_inbound = 100

pub record InboundNotificationRow : Type 0 where
  pub notification_id : String
  pub received_at : String
  pub payload : ParsedNotificationPayload

-- `Record<string, true>` is a `Dict` of units.
pub record NotificationsState : Type 0 where
  pub inbound : List InboundNotificationRow
  pub seen_notification_ids : Dict {0} Unit

abbrev pub notifications_initial_state : NotificationsState
notifications_initial_state = record { inbound = []; seen_notification_ids = empty }

-- `while (state.inbound.length > MAX_INBOUND)`
unfoldable pub evict : List InboundNotificationRow → Dict {0} Unit → NotificationsState
evict [] seen = record { inbound = []; seen_notification_ids = seen }
evict (removed ∷ rest) seen =
    let evicted = evict rest (remove removed.notification_id seen) in
    if ltb max_inbound (length (removed ∷ rest))
    then evicted
    else record { inbound = removed ∷ rest; seen_notification_ids = seen }

unfoldable pub append_inbound_notification :
    String → ParsedNotificationPayload → NotificationsState → NotificationsState
append_inbound_notification now payload state =
    let id = notification_id payload in
    if is_some (state.seen_notification_ids id)
    then state
    else evict
        (state.inbound
          ++ record { notification_id = id; received_at = now; payload = payload } ∷ [])
        (put id tt state.seen_notification_ids)

pub data NotificationsAction : Type 0 where
  append_inbound : String → ParsedNotificationPayload → NotificationsAction
  reset_notifications : NotificationsAction

unfoldable pub notifications_reducer : NotificationsAction → NotificationsState → NotificationsState
notifications_reducer (append_inbound now payload) s = append_inbound_notification now payload s
notifications_reducer reset_notifications s = notifications_initial_state
