-- ===== src/Web/Messaging/Laws/Merging.antt =====
-- The merge functions keep what only the client, or only one of two racing sources, knows.
use messaging_system.Common.{
  is_empty-trim_empty, ◌≡◌, refl, String, true, false, Option, none, some, ◌⊎◌, not, arith, trim,
  trim_or_empty, is_empty, is_truthy, if◌then◌else◌, Option-cases,
}
use messaging_system.Web.Messaging.State.{Message, StoredMessage, has_text, is_message_wire_e2ee}
use messaging_system.Web.Messaging.Merge.{
  merge_own_hybrid_wire_body_from_optimistic, merge_server_message_with_optimistic_client_fields,
  merge_hydrate_fetched_with_existing, merge_hydrate_media_key, pick_preview,
}

text_of_missing : (o : Option String) → not (is_empty (trim_or_empty o)) ≡ has_text o
text_of_missing none = refl
text_of_missing (some t) = refl

has_text-is_truthy : (o : Option String) → has_text o ≡ true → is_truthy o ≡ true
unfolding trim
has_text-is_truthy none e = e
has_text-is_truthy (some String.[]) e = cc
has_text-is_truthy (some (String.◌∷◌ c t)) e = refl

-- A stored hybrid envelope survives a fetch that lost it: the merged row still tests as hybrid,
-- provided the fetched body is missing or not blank.
pub merge_hydrate-keeps_envelope :
    (existing : StoredMessage) (fetched : Message)
    → is_message_wire_e2ee existing.message ≡ true
    → (fetched.body ≡ none) ⊎ (has_text fetched.body ≡ true)
    → is_message_wire_e2ee (merge_hydrate_fetched_with_existing (some existing) fetched).message
      ≡ true
unfolding merge_hydrate_fetched_with_existing is_message_wire_e2ee
merge_hydrate-keeps_envelope existing fetched e b = ground arith

-- An attachment key that the client holds is not lost to a page that has none, and a preview that
-- is not blank is kept.
merge_hydrate-keeps_media :
    (existing : StoredMessage) (fetched : Message)
    → has_text existing.media_key ≡ true
    → has_text fetched.media_key ≡ false
    → ((merge_hydrate_fetched_with_existing (some existing) fetched).media_key ≡ existing.media_key)
      × ((merge_hydrate_fetched_with_existing (some existing) fetched).media_preview_url
          ≡ pick_preview existing.media_preview_url)
unfolding merge_hydrate_fetched_with_existing merge_hydrate_media_key
merge_hydrate-keeps_media existing fetched e f = ground (arith, text_of_missing fetched.media_key)

hybrid-has_body : (m : Message) → is_message_wire_e2ee m ≡ true → has_text m.body ≡ true
unfolding is_message_wire_e2ee
hybrid-has_body m e = ground arith

-- For a hybrid answer without a media key, and an optimistic row with a text and a media key that are
-- not blank: the answer takes over the row's text, its attachment key and its preview, trimmed,
-- unless that is blank; merged with no row it has the wire body and no attachment.
pub merge_server-client_fields :
    (m : Message) (opt : StoredMessage)
    → is_message_wire_e2ee m ≡ true
    → m.media_key ≡ none
    → has_text opt.body ≡ true
    → has_text opt.media_key ≡ true
    → let kept = merge_server_message_with_optimistic_client_fields m (some opt) in
      let bare = merge_server_message_with_optimistic_client_fields m none in
      (kept.body ≡ opt.body)
      × (kept.media_key ≡ opt.media_key)
      × (kept.media_preview_url ≡ (
          if is_empty (trim_or_empty opt.media_preview_url)
          then none
          else some (trim_or_empty opt.media_preview_url)))
      × (bare.body ≡ m.body)
      × (bare.media_key ≡ none)
      × (bare.media_preview_url ≡ none)
unfolding merge_server_message_with_optimistic_client_fields
    merge_own_hybrid_wire_body_from_optimistic
merge_server-client_fields m opt e k b o = ground (
  arith,
  has_text-is_truthy m.body (hybrid-has_body m e),
  text_of_missing m.media_key,
  text_of_missing opt.media_key,
  Option-cases opt.media_preview_url,
  is_empty-trim_empty,
)
