-- ===== src/Web/Notifications/Validation.antt =====
-- What the payload validator lets through.
use messaging_system.Common.{
  bind_some, ◌≡◌, String, false, Option, none, some, arith, Dict, Bool-cases, inl, inr, is_empty,
  ◌>>=◌,
}
use messaging_system.Web.Notifications.{ParsedNotificationPayload}
use messaging_system.Web.Notifications.Payload.{
  ThreadType, direct, group, Field, Value, NotificationMessagePayload,
  NotificationCallIncomingPayload, message, call_incoming, Input, not_object, object, is_one,
  is_text, prop, non_empty_string, group_fields, parse_message_kind, parse_call_incoming_kind,
  parse_notification_worker_payload, IsValid, IsGroupFilled, IsOptionalFilled, conversation_field,
}

non_empty_string-IsFilled :
    (v : Value) (s : String) → non_empty_string v ≡ some s → is_empty s ≡ false
unfolding non_empty_string
non_empty_string-IsFilled v s h = ground arith

group_fields-IsGroupFilled :
    (t : ThreadType) (o : Dict Value) (g : Option String × Field)
    → group_fields t o ≡ some g
    → IsGroupFilled t g.0
unfolding group_fields non_empty_string ◌>>=◌
group_fields-IsGroupFilled direct o g h = ground arith
group_fields-IsGroupFilled group o g h = ground arith

parse_message_kind-IsValid :
    (o : Dict Value) (p : NotificationMessagePayload)
    → parse_message_kind o ≡ some p
    → IsValid (message p)
unfolding parse_message_kind
parse_message_kind-IsValid o p h =
    let (notification, e1, h) = bind_some _ _ _ h in
    let (occurred, e2, h) = bind_some _ _ _ h in
    let (thread, e3, h) = bind_some _ _ _ h in
    let (conversation, e4, h) = bind_some _ _ _ h in
    let (id, e5, h) = bind_some _ _ _ h in
    let (sender, e6, h) = bind_some _ _ _ h in
    let (name, e7, h) = bind_some _ _ _ h in
    let (preview, e8, h) = bind_some _ _ _ h in
    let (g, e9, h) = bind_some _ _ _ h in
    ground (
      arith,
      non_empty_string-IsFilled _ notification e1,
      non_empty_string-IsFilled _ occurred e2,
      non_empty_string-IsFilled _ conversation e4,
      non_empty_string-IsFilled _ id e5,
      non_empty_string-IsFilled _ sender e6,
      group_fields-IsGroupFilled thread o g e9,
    )

conversation_field-IsFilled :
    (v : Value) (id : Option String) → conversation_field v ≡ some id → IsOptionalFilled id
unfolding conversation_field non_empty_string ◌>>=◌
conversation_field-IsFilled v none h = tt
conversation_field-IsFilled v (some id) h = ground (arith, h)

parse_call_incoming_kind-IsValid :
    (o : Dict Value) (p : NotificationCallIncomingPayload)
    → parse_call_incoming_kind o ≡ some p
    → IsValid (call_incoming p)
unfolding parse_call_incoming_kind
parse_call_incoming_kind-IsValid o p h =
    let (notification, e1, h) = bind_some _ _ _ h in
    let (occurred, e2, h) = bind_some _ _ _ h in
    let (media, e3, h) = bind_some _ _ _ h in
    let (scope, e4, h) = bind_some _ _ _ h in
    let (id, e5, h) = bind_some _ _ _ h in
    let (caller, e6, h) = bind_some _ _ _ h in
    let (name, e7, h) = bind_some _ _ _ h in
    let (conversation, e8, h) = bind_some _ _ _ h in
    let (g, e9, h) = bind_some _ _ _ h in
    ground (
      arith,
      non_empty_string-IsFilled _ notification e1,
      non_empty_string-IsFilled _ occurred e2,
      non_empty_string-IsFilled _ id e5,
      non_empty_string-IsFilled _ caller e6,
      conversation_field-IsFilled _ conversation e8,
      group_fields-IsGroupFilled scope o g e9,
    )

parse_object-IsValid :
    (o : Dict Value) (p : ParsedNotificationPayload)
    → parse_notification_worker_payload (object o) ≡ some p
    → IsValid p
unfolding parse_notification_worker_payload
parse_object-IsValid o p = elim (Bool-cases (is_one (prop "schemaVersion" o))) [
  | inr e ↦ rw e (λ h. ground arith)
  | inl e ↦ rw e (elim (Bool-cases (is_text "message" (prop "kind" o))) [
    | inl e ↦
        rw e (λ h.
          let (q, e, h) = bind_some _ _ _ h in ground (arith, parse_message_kind-IsValid o q e))
    | inr e ↦ rw e (elim (Bool-cases (is_text "call_incoming" (prop "kind" o))) [
      | inl e ↦ rw e (λ h.
          let (q, e, h) = bind_some _ _ _ h in
          ground (arith, parse_call_incoming_kind-IsValid o q e))
      | inr e ↦ rw e (λ h. ground arith)
    ])
  ])
]

-- A payload that the validator returns has non-empty ids and time, the conversation of a call among
-- them where it names one, and a group id, which is non-empty, exactly when it is about a group.
pub parse_notification_worker_payload-IsValid :
    (i : Input) (p : ParsedNotificationPayload)
    → parse_notification_worker_payload i ≡ some p
    → IsValid p
unfolding parse_notification_worker_payload
parse_notification_worker_payload-IsValid not_object p h = ground arith
parse_notification_worker_payload-IsValid (object o) p h = parse_object-IsValid o p h
