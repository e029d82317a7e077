-- ===== src/Api/SocketAuth/Tests.antt =====
-- A user who connects in production with the header of a signed token, and a developer's socket.
use messaging_system.Common.{◌≡◌, refl, ◌↔◌, Bool, true, false, none, some, [], empty, put, trim}
use messaging_system.Api.Documents.{UserDocument}
use messaging_system.Api.Mongo.{World}
use messaging_system.Api.Mongo.Table.{table, user_of}
use messaging_system.Api.Send.{find_user_by_id}
use messaging_system.Api.Service.{ok}
use messaging_system.Api.Sessions.{
  Env, Headers, require_authenticated_user, AuthenticatedRequestContext,
}
use messaging_system.Api.Sessions.Access.{bearer_of}
use messaging_system.Api.Sessions.Memory.{plain_jose}
use messaging_system.Api.Signaling.{authenticated}
use messaging_system.Api.SocketAuth.{Handshake, resolve_handshake_access_auth, resolve_socket_auth}
use messaging_system.Api.SocketAuth.Laws.{resolve_socket_auth-require_authenticated_user}

abbrev env_of : Bool → Env
env_of production = record {
  jwt_secret = some "secret";
  production = production;
  email_verification_required = true;
  access_token_ttl_seconds = 900;
  refresh_token_ttl_seconds = 86400;
  guest_access_token_ttl_seconds = 60;
  guest_refresh_token_ttl_seconds = 120;
}

abbrev bea : UserDocument
bea = user_of "bea" false

abbrev world : World table
world = record {
  messages = empty;
  conversations = empty;
  reads = λ _. none;
  users = put "bea" bea empty;
  connected = true;
  published = [];
}

abbrev bea_header : Headers
bea_header = bearer_of (
    plain_jose.sign
      (record { sub = "bea"; email_verified = true; guest = false; source_device_id = none }) 5 900
      "secret")

resolve_socket_auth-require_authenticated_user_example :
    (resolve_socket_auth plain_jose table
        (record { auth = none; header_authorization = bea_header.authorization })
        (env_of true)
        9
        world
      ≡ authenticated bea)
    ↔ ((context : AuthenticatedRequestContext) × (require_authenticated_user plain_jose table
            bea_header
            (env_of true)
            9
            world
          ≡ ok context)
        × (context.user ≡ bea))
resolve_socket_auth-require_authenticated_user_example =
    resolve_socket_auth-require_authenticated_user plain_jose table bea_header (env_of true) 9 world
      bea refl

abbrev developer : Handshake
developer = record {
  auth = some (record {
    token = none;
    access_token = some " ";
    authorization = none;
    user_id = some " bea ";
  });
  header_authorization = none;
}

developer_is_let_in :
    resolve_socket_auth plain_jose table developer (env_of false) 9 world ≡ authenticated bea
unfolding resolve_socket_auth resolve_handshake_access_auth find_user_by_id trim
developer_is_let_in = refl
