-- ===== src/Api/Sessions/Access.antt =====
-- That a token which the service signs lets its user in.
use Prim.Native.String
use messaging_system.Common.{String, Option, none, some}
use messaging_system.Api.Documents.{UserDocument}
use messaging_system.Api.Mongo.{Database}
use messaging_system.Api.Sessions.{Headers, nonblank}
use messaging_system.Api.Sessions.Tokens.{Jose, Claims, IsLawfulJose}

abbrev pub bearer_of : String → Headers
bearer_of token = record {
  authorization = some (String.◌++◌ "Bearer " token);
  x_user_id = none;
  x_source_device_id = none;
}

module _ (jose : Jose) (lawful : IsLawfulJose jose) (db : Database) where
  abbrev claims_of : UserDocument → Option String → Claims
  claims_of user source_device_id = record {
    sub = user.id;
    email_verified = user.email_verified;
    guest = user.is_guest;
    source_device_id = nonblank source_device_id;
  }
