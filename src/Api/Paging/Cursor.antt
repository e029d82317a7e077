-- ===== src/Api/Paging/Cursor.antt =====
-- The cursors of the lists: data/messages/messageCursor.ts and data/conversations/conversationCursor.ts
-- under apps/messaging-service/src. `JSON`, `Buffer` and `Date` are parameters, with what their
-- documentation says of a round trip as laws.
pub mod RoundTrip
use messaging_system.Common.{
  ◌≡◌, ℕ, String, Bool, true, false, Option, none, some, trim, is_empty, if◌then◌else◌,
}
use messaging_system.Api.Service.{Outcome, ok, failed, app_error, ◌>>=◌}

-- What the code reads of a parsed value: the fields `t` and `id` of an object, where they are texts.
pub data Parsed : Type 0 where
  object : Option String → Option String → Parsed
  not_an_object : Parsed

pub record Codec : Type 0 where
  -- `JSON.stringify({ t, id })`, and `JSON.parse`, which may throw
  pub stringify : String → String → String
  pub parse_json : String → Option Parsed
  -- `Buffer.from(s, 'utf8').toString('base64url')`, and back
  pub to_base64url : String → String
  pub from_base64url : String → String
  -- `toISOString()`, and `new Date(t)`, where `none` is an invalid date
  pub to_iso_string : ℕ → String
  pub parse_date : String → Option ℕ

pub record IsLawful (codec : Codec) : Type 0 where
  pub from-to : (s : String) → codec.from_base64url (codec.to_base64url s) ≡ s
  -- the alphabet of base64url has no white space
  pub trim-to : (s : String) → trim (codec.to_base64url s) ≡ codec.to_base64url s
  pub to-nonempty : (t id : String) → is_empty (codec.to_base64url (codec.stringify t id)) ≡ false
  pub parse-stringify :
      (date : ℕ) (id : String)
      → codec.parse_json (codec.stringify (codec.to_iso_string date) id)
        ≡ some (object (some (codec.to_iso_string date)) (some id))
  pub parse-iso : (date : ℕ) → codec.parse_date (codec.to_iso_string date) ≡ some date

pub record MessageListCursor : Type 0 where
  pub created_at : ℕ
  pub id : String

pub record ConversationListCursor : Type 0 where
  pub updated_at : ℕ
  pub id : String

abbrev invalid_cursor {ℓ} : {A : Type ℓ} → Outcome A
invalid_cursor = failed (app_error "INVALID_REQUEST" 400 "Invalid cursor")

module _ (codec : Codec) where
  -- The date and the id of a parsed value.
  read_fields : Parsed → Outcome (ℕ × String)
  read_fields not_an_object = invalid_cursor
  read_fields (object none id) = invalid_cursor
  read_fields (object (some t) none) = invalid_cursor
  read_fields (object (some t) (some id)) =
      if is_empty (trim id)
      then invalid_cursor
      else elim (codec.parse_date t) [ none ↦ invalid_cursor | some date ↦ ok (date, trim id) ]

  read_cursor : String → Outcome (ℕ × String)
  unfolding read_fields
  read_cursor raw =
      if is_empty (trim raw)
      then invalid_cursor
      else elim (codec.parse_json (codec.from_base64url (trim raw))) [
        | none ↦ invalid_cursor
        | some parsed ↦ read_fields parsed
      ]

  unfoldable pub encode_message_list_cursor : MessageListCursor → String
  encode_message_list_cursor cursor =
      codec.to_base64url (codec.stringify (codec.to_iso_string cursor.created_at) cursor.id)

  unfoldable pub parse_message_list_cursor : String → Outcome MessageListCursor
  unfolding read_cursor
  parse_message_list_cursor raw =
      read_cursor raw >>= λ fields. ok (record { created_at = fields.0; id = fields.1 })

  unfoldable pub encode_conversation_list_cursor : ConversationListCursor → String
  encode_conversation_list_cursor cursor =
      codec.to_base64url (codec.stringify (codec.to_iso_string cursor.updated_at) cursor.id)

  unfoldable pub parse_conversation_list_cursor : String → Outcome ConversationListCursor
  unfolding read_cursor
  parse_conversation_list_cursor raw =
      read_cursor raw >>= λ fields. ok (record { updated_at = fields.0; id = fields.1 })
