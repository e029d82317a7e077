-- ===== src/Api/Send/Tests.antt =====
-- A message between two guests, and the theorem on it.
use messaging_system.Common.{
  ◌≡◌, refl, true, false, none, some, [], ◌∷◌, empty, put, trim, ◌||◌, ◌==◌, if◌then◌else◌,
}
use messaging_system.Api.Service.{ok, failed, app_error, Failure}
use messaging_system.Api.Documents.{MessageDocument}
use messaging_system.Api.Mongo.{World}
use messaging_system.Api.Mongo.Table.{user_of, table, table-IsLawful}
use messaging_system.Api.Send.{
  send_message_for_user, send_to_recipient, check_recipient, find_user_by_id,
  find_or_create_direct_conversation, insert_direct_message_and_publish, insert_message,
}
use messaging_system.Api.Send.Request.{
  SendMessageRequest, Sources, has_hybrid_envelope, assert_guest_guest_direct_messaging_allowed,
}
use messaging_system.Api.Send.Refusal.{send_message_for_user-refused}
use messaging_system.Api.Send.Laws.{IsSent, send_message_for_user-IsSent}

abbrev guests : World table
guests = record {
  messages = empty;
  conversations = empty;
  reads = λ _. none;
  users = λ id. if id == "ann" || id == "bob" then some (user_of id true) else none;
  connected = true;
  published = [];
}

abbrev sources : Sources
sources = record {
  guest_data_ttl_enabled = true;
  guest_data_mongodb_ttl_seconds = 60;
  now = 5000;
  fresh_message_id = "m1";
  fresh_conversation_id = "c1";
}

-- A sealed message with a media key, which is not stored.
abbrev sealed : SendMessageRequest
sealed = record {
  conversation_id = none;
  recipient_user_id = some " bob ";
  body = some " wire ";
  media_key = some "k";
  encrypted_message_keys = some (("d1", "w") ∷ []);
  iv = some (some "iv");
  algorithm = some (some "alg");
}

abbrev stored_doc : MessageDocument
stored_doc = record {
  id = "m1";
  conversation_id = "c1";
  sender_id = "ann";
  body = some "wire";
  media_key = none;
  encrypted_message_keys = some (("d1", "w") ∷ []);
  iv = some (some "iv");
  algorithm = some (some "alg");
  created_at = 5000;
  guest_data_expires_at = some 65000;
  receipts_by_user_id = none;
}

abbrev after : World table
after = (send_message_for_user table sources "ann" sealed (some "s1") guests).1

returns :
    send_message_for_user table sources "ann" sealed (some "s1") guests ≡ (ok stored_doc, after)
unfolding send_message_for_user send_to_recipient check_recipient find_user_by_id
    find_or_create_direct_conversation insert_direct_message_and_publish insert_message
    has_hybrid_envelope assert_guest_guest_direct_messaging_allowed messaging_system.Common.trim
    messaging_system.Api.Receipts.publish_message
returns = refl

send_message_for_user-IsSent_example :
    IsSent table table-IsLawful "ann" sealed (some "s1") guests stored_doc after
send_message_for_user-IsSent_example =
    send_message_for_user-IsSent table table-IsLawful sources "ann" sealed (some "s1") guests
      stored_doc after returns

-- Bob is registered.
abbrev mixed : World table
mixed = record guests {
  users = λ id.
      if id == "ann"
      then some (user_of id true)
      else if id == "bob"
      then some (user_of id false)
      else none;
}

abbrev refusal : Failure
refusal = app_error "GUEST_MESSAGING_FORBIDDEN" 403 "Guests can only message other guests"

abbrev unchanged : World table
unchanged = (send_message_for_user table sources "ann" sealed none mixed).1

refuses : send_message_for_user table sources "ann" sealed none mixed ≡ (failed refusal, unchanged)
unfolding send_message_for_user send_to_recipient check_recipient find_user_by_id
    assert_guest_guest_direct_messaging_allowed messaging_system.Common.trim
refuses = refl

send_message_for_user-refused_example :
    (unchanged.messages ≡ mixed.messages)
    × (unchanged.published ≡ mixed.published)
    × (unchanged.connected ≡ mixed.connected)
send_message_for_user-refused_example =
    send_message_for_user-refused table sources "ann" sealed none mixed refusal unchanged refl
      refuses
