-- ===== src/Api/Paging/Cursor/RoundTrip.antt =====
-- A cursor that the service hands out is read back.
use messaging_system.Common.{◌≡◌, ℕ, String, false, trim, is_empty, ◌∙◌, refl, ap}
use messaging_system.Api.Paging.Cursor.{
  Codec, IsLawful, MessageListCursor, ConversationListCursor, encode_message_list_cursor,
  parse_message_list_cursor, encode_conversation_list_cursor, parse_conversation_list_cursor,
  read_cursor, read_fields,
}
use messaging_system.Api.Service.{ok, ◌>>=◌}

module _ (codec : Codec) (lawful : IsLawful codec) where
  read_cursor_lem :
      (date : ℕ) (id : String)
      → trim id ≡ id
      → is_empty id ≡ false
      → read_cursor codec (codec.to_base64url (codec.stringify (codec.to_iso_string date) id))
        ≡ ok (date, id)
  unfolding read_cursor read_fields
  read_cursor_lem date id e f =
      rw
        (
          lawful.trim-to (codec.stringify (codec.to_iso_string date) id),
          lawful.to-nonempty (codec.to_iso_string date) id,
          lawful.from-to (codec.stringify (codec.to_iso_string date) id),
          lawful.parse-stringify date id,
          e,
          f,
          lawful.parse-iso date,
        )
        (ap (λ x. ok (date, x)) e)

  -- Parsing the cursor of a message gives its date and id, when the id has no white space around it
  -- and is not empty.
  pub parse_message_list_cursor-encode_message_list_cursor :
      (cursor : MessageListCursor)
      → trim cursor.id ≡ cursor.id
      → is_empty cursor.id ≡ false
      → parse_message_list_cursor codec (encode_message_list_cursor codec cursor) ≡ ok cursor
  unfolding parse_message_list_cursor encode_message_list_cursor ◌>>=◌
  parse_message_list_cursor-encode_message_list_cursor cursor e f =
      rw (read_cursor_lem cursor.created_at cursor.id e f) refl

  pub parse_conversation_list_cursor-encode_conversation_list_cursor :
      (cursor : ConversationListCursor)
      → trim cursor.id ≡ cursor.id
      → is_empty cursor.id ≡ false
      → parse_conversation_list_cursor codec (encode_conversation_list_cursor codec cursor)
        ≡ ok cursor
  unfolding parse_conversation_list_cursor encode_conversation_list_cursor ◌>>=◌
  parse_conversation_list_cursor-encode_conversation_list_cursor cursor e f =
      rw (read_cursor_lem cursor.updated_at cursor.id e f) refl

  pub encode_message_list_cursor_nonblank :
      (cursor : MessageListCursor)
      → is_empty (trim (encode_message_list_cursor codec cursor)) ≡ false
  unfolding encode_message_list_cursor
  encode_message_list_cursor_nonblank cursor =
      ap is_empty
        (lawful.trim-to (codec.stringify (codec.to_iso_string cursor.created_at) cursor.id))
      ∙ lawful.to-nonempty (codec.to_iso_string cursor.created_at) cursor.id

  pub encode_conversation_list_cursor_nonblank :
      (cursor : ConversationListCursor)
      → is_empty (trim (encode_conversation_list_cursor codec cursor)) ≡ false
  unfolding encode_conversation_list_cursor
  encode_conversation_list_cursor_nonblank cursor =
      ap is_empty
        (lawful.trim-to (codec.stringify (codec.to_iso_string cursor.updated_at) cursor.id))
      ∙ lawful.to-nonempty (codec.to_iso_string cursor.updated_at) cursor.id
