-- ===== src/Web/Notifications/Payload.antt =====
-- The notification payloads and their validator,
-- apps/web-client/src/common/realtime/socketNotificationPayload.ts. A JavaScript value is one of
-- the cases its tests tell apart; an object is a `Dict`, and `k in o` holds where the key is there.
use messaging_system.Common.{
  ℕ, String, Bool, false, Option, none, some, not, Dict, ◌==◌, trim, is_empty, nat_eq,
  if◌then◌else◌, get_or, ◌>>=◌, ◌≡◌,
}

pub data ThreadType : Type 0 where
  direct group : ThreadType

pub data CallMedia : Type 0 where
  audio video : CallMedia

-- An optional field: missing, null, or a value.
pub data Field : Type 0 where
  missing null_field : Field
  given : String → Field

pub record NotificationMessagePayload : Type 0 where
  pub notification_id : String
  pub occurred_at : String
  pub thread_type : ThreadType
  pub conversation_id : String
  pub message_id : String
  pub sender_user_id : String
  pub sender_display_name : Field
  pub preview : Option String
  pub group_id : Option String
  pub group_title : Field

pub record NotificationCallIncomingPayload : Type 0 where
  pub notification_id : String
  pub occurred_at : String
  pub media : CallMedia
  pub call_scope : ThreadType
  pub call_id : String
  pub caller_user_id : String
  pub caller_display_name : Option String
  pub conversation_id : Option String
  pub group_id : Option String
  pub group_title : Field

pub data ParsedNotificationPayload : Type 0 where
  message : NotificationMessagePayload → ParsedNotificationPayload
  call_incoming : NotificationCallIncomingPayload → ParsedNotificationPayload

abbrev pub notification_id : ParsedNotificationPayload → String
notification_id (message p) = p.notification_id
notification_id (call_incoming p) = p.notification_id

-- The JavaScript values that the tests tell apart; booleans, lists and objects are `other`.
pub data Value : Type 0 where
  undefined null other : Value
  number : ℕ → Value
  text : String → Value

-- The `unknown` that is parsed.
pub data Input : Type 0 where
  not_object : Input
  object : Dict Value → Input

-- `o.k`
abbrev pub prop : String → Dict Value → Value
prop k o = get_or (o k) undefined

-- `isNonEmptyString(v)`, with the trimmed text that its callers take
unfoldable pub non_empty_string : Value → Option String
non_empty_string (text s) = if is_empty (trim s) then none else some (trim s)
non_empty_string _ = none

-- `senderDisplayName` and `groupTitle`
display_field : Option Value → Option Field
display_field none = some missing
display_field (some undefined) = some null_field
display_field (some null) = some null_field
display_field (some (text s)) = some (given s)
display_field (some _) = none

preview_field : Value → Option (Option String)
preview_field undefined = some none
preview_field (text s) = some (some s)
preview_field _ = none

caller_field : Option Value → Option (Option String)
caller_field none = some none
caller_field (some null) = some none
caller_field (some (text s)) = some (some s)
caller_field (some _) = none

unfoldable pub conversation_field : Value → Option (Option String)
unfolding non_empty_string
conversation_field undefined = some none
conversation_field v = do id ← non_empty_string v; some (some id)

unfoldable pub is_text : String → Value → Bool
is_text s (text t) = t == s
is_text s _ = false

thread_of : Value → Option ThreadType
unfolding is_text
thread_of v =
    if is_text "direct" v then some direct else if is_text "group" v then some group else none

media_of : Value → Option CallMedia
unfolding is_text
media_of v =
    if is_text "audio" v then some audio else if is_text "video" v then some video else none

-- `groupId` and `groupTitle`, read for a group only
unfoldable pub group_fields : ThreadType → Dict Value → Option (Option String × Field)
unfolding non_empty_string display_field
group_fields direct o = some (none, missing)
group_fields group o = do
  id ← non_empty_string (prop "groupId" o)
  title ← display_field (o "groupTitle")
  some (some id, title)

unfoldable pub parse_message_kind : Dict Value → Option NotificationMessagePayload
unfolding non_empty_string thread_of display_field preview_field group_fields
parse_message_kind o = do
  notification ← non_empty_string (prop "notificationId" o)
  occurred ← non_empty_string (prop "occurredAt" o)
  thread ← thread_of (prop "threadType" o)
  conversation ← non_empty_string (prop "conversationId" o)
  id ← non_empty_string (prop "messageId" o)
  sender ← non_empty_string (prop "senderUserId" o)
  name ← display_field (o "senderDisplayName")
  preview ← preview_field (prop "preview" o)
  g ← group_fields thread o
  some (record {
    notification_id = notification;
    occurred_at = occurred;
    thread_type = thread;
    conversation_id = conversation;
    message_id = id;
    sender_user_id = sender;
    sender_display_name = name;
    preview = preview;
    group_id = g.0;
    group_title = g.1;
  })

unfoldable pub parse_call_incoming_kind : Dict Value → Option NotificationCallIncomingPayload
unfolding non_empty_string media_of thread_of caller_field conversation_field group_fields
parse_call_incoming_kind o = do
  notification ← non_empty_string (prop "notificationId" o)
  occurred ← non_empty_string (prop "occurredAt" o)
  media ← media_of (prop "media" o)
  scope ← thread_of (prop "callScope" o)
  id ← non_empty_string (prop "callId" o)
  caller ← non_empty_string (prop "callerUserId" o)
  name ← caller_field (o "callerDisplayName")
  conversation ← conversation_field (prop "conversationId" o)
  g ← group_fields scope o
  some (record {
    notification_id = notification;
    occurred_at = occurred;
    media = media;
    call_scope = scope;
    call_id = id;
    caller_user_id = caller;
    caller_display_name = name;
    conversation_id = conversation;
    group_id = g.0;
    group_title = g.1;
  })

unfoldable pub is_one : Value → Bool
is_one (number n) = nat_eq n 1
is_one _ = false

unfoldable pub parse_notification_worker_payload : Input → Option ParsedNotificationPayload
unfolding is_one is_text parse_message_kind parse_call_incoming_kind
parse_notification_worker_payload not_object = none
parse_notification_worker_payload (object o) =
    if not (is_one (prop "schemaVersion" o))
    then none
    else if is_text "message" (prop "kind" o)
    then (do p ← parse_message_kind o; some (message p))
    else if is_text "call_incoming" (prop "kind" o)
    then (do p ← parse_call_incoming_kind o; some (call_incoming p))
    else none

-- What the validator promises of what it lets through.
abbrev pub IsFilled : String → Type 0
IsFilled s = is_empty s ≡ false

abbrev pub IsGroupFilled : ThreadType → Option String → Type 0
IsGroupFilled direct id = id ≡ none
IsGroupFilled group none = ⊥
IsGroupFilled group (some id) = IsFilled id

-- An id that may be missing.
abbrev pub IsOptionalFilled : Option String → Type 0
IsOptionalFilled none = Unit
IsOptionalFilled (some id) = IsFilled id

abbrev pub IsValid : ParsedNotificationPayload → Type 0
IsValid (message p) =
    IsFilled p.notification_id
    × IsFilled p.occurred_at
    × IsFilled p.conversation_id
    × IsFilled p.message_id
    × IsFilled p.sender_user_id
    × IsGroupFilled p.thread_type p.group_id
IsValid (call_incoming p) =
    IsFilled p.notification_id
    × IsFilled p.occurred_at
    × IsFilled p.call_id
    × IsFilled p.caller_user_id
    × IsOptionalFilled p.conversation_id
    × IsGroupFilled p.call_scope p.group_id
