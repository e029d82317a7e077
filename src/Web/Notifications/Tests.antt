-- ===== src/Web/Notifications/Tests.antt =====
-- Concrete notifications, and the theorems on them at concrete inputs.
use messaging_system.Common.{
  ◌≡◌, refl, none, some, ℕ, zero, suc, String, List, [], ◌∷◌, ◌++◌, Dict, true, false, put, empty,
  trim, contains, ◌>>=◌,
}
use messaging_system.Web.Notifications.{
  ParsedNotificationPayload, NotificationsAction, NotificationsState, append_inbound,
  notifications_initial_state, append_inbound_notification, InboundNotificationRow,
}
use messaging_system.Web.Notifications.Payload.{
  direct, missing, message, Input, object, number, text, IsValid, parse_notification_worker_payload,
}
use messaging_system.Web.Notifications.Laws.{
  IsQueue, run_notifications, run_notifications-IsQueue, append_inbound-evicts,
}
use messaging_system.Web.Notifications.Validation.{parse_notification_worker_payload-IsValid}

abbrev wire : Input
wire = object (
    put "schemaVersion" (number 1) (
      put "kind" (text "message") (
        put "notificationId" (text " n1 ") (
          put "occurredAt" (text "t") (
            put "threadType" (text "direct") (
              put "conversationId" (text "c")
                (put "messageId" (text "m") (put "senderUserId" (text "u") empty))))))))

abbrev payload : String → ParsedNotificationPayload
payload id = message (record {
  notification_id = id;
  occurred_at = "t";
  thread_type = direct;
  conversation_id = "c";
  message_id = "m";
  sender_user_id = "u";
  sender_display_name = missing;
  preview = none;
  group_id = none;
  group_title = missing;
})

wire_parsed : parse_notification_worker_payload wire ≡ some (payload "n1")
unfolding parse_notification_worker_payload ◌>>=◌ messaging_system.Common.trim
wire_parsed = refl

parse_notification_worker_payload-IsValid_example : IsValid (payload "n1")
parse_notification_worker_payload-IsValid_example =
    parse_notification_worker_payload-IsValid wire (payload "n1") wire_parsed

abbrev twice : List NotificationsAction
twice = append_inbound "t0" (payload "n1") ∷ append_inbound "t1" (payload "n1") ∷ []

run_notifications-IsQueue_example : IsQueue (run_notifications twice notifications_initial_state)
run_notifications-IsQueue_example = run_notifications-IsQueue twice

abbrev row : String → InboundNotificationRow
row id = record { notification_id = id; received_at = "t"; payload = payload id }

abbrev rows : ℕ → List InboundNotificationRow
rows zero = []
rows (suc n) = row "again" ∷ rows n

abbrev full : NotificationsState
full = record {
  inbound = row "old" ∷ rows 99;
  seen_notification_ids = put "old" tt (put "again" tt empty);
}

append_inbound-evicts_example :
    ((append_inbound_notification "t" (payload "new") full).inbound ≡ rows 99 ++ row "new" ∷ [])
    × ((append_inbound_notification "t" (payload "new") full).seen_notification_ids "old" ≡ none)
append_inbound-evicts_example =
    append_inbound-evicts "t" (payload "new") full (row "old") (rows 99) refl refl refl
