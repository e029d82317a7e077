-- ===== src/Api/Sessions/Tests.antt =====
-- A guest's session, and the theorems at it.

use messaging_system.Common.{
  ◌≡◌, refl, ap, sym, String, true, false, none, some, empty, put, trim, is_some, arith, Dict, [],
  ◌⊎◌, ◌↔◌,
}
use messaging_system.Api.Documents.{UserDocument}
use messaging_system.Api.Mongo.{World}
use messaging_system.Api.Mongo.Table.{table, user_of, table_users-IsLawful}
use messaging_system.Api.Send.{find_user_by_id}
use messaging_system.Api.Service.{ok, failed, app_error, is_ok}
use messaging_system.Api.Sessions.{
  Env, Headers, nonblank, require_authenticated_user, resolve_bearer_auth,
}
use messaging_system.Api.Sessions.Authority.{
  IsBearer, IsDeveloper, require_authenticated_user-IsBearer,
}
use messaging_system.Api.Sessions.Eligibility.{MayRefresh, post_refresh-MayRefresh}
use messaging_system.Api.Sessions.Memory.{
  token_memory, token_memory-IsLawful, plain_payloads, plain_payloads-IsLawful, plain_jose, Held,
}
use messaging_system.Api.Sessions.Refresh.{set_user_password_and_bump_version-revokes}
use messaging_system.Api.Sessions.Rotation.{
  Devices, post_refresh, get_refresh_payload, set_user_password_and_bump_version,
  revoke_refresh_token, create_refresh_token,
}

abbrev env : Env
env = record {
  jwt_secret = some "secret";
  production = false;
  email_verification_required = true;
  access_token_ttl_seconds = 900;
  refresh_token_ttl_seconds = 86400;
  guest_access_token_ttl_seconds = 60;
  guest_refresh_token_ttl_seconds = 120;
}

abbrev ann : UserDocument
ann = user_of "ann" true

abbrev world : World table
world = record {
  messages = empty;
  conversations = empty;
  reads = λ _. none;
  users = put "ann" ann empty;
  connected = true;
  published = [];
}

abbrev no_devices : Devices
no_devices = λ _. false

-- The token "old" stands for the guest.
abbrev session : Dict {0} Held
session = (create_refresh_token plain_jose plain_payloads token_memory "ann" 0 "old" 120 0 empty).1

old_is_stored :
    get_refresh_payload plain_jose plain_payloads token_memory "old" 5 session
    ≡ some (record { user_id = "ann"; v = 0 })
unfolding get_refresh_payload create_refresh_token
old_is_stored = ground (
  arith,
  plain_payloads-IsLawful.is_empty-stringify (record { user_id = "ann"; v = 0 }),
  plain_payloads-IsLawful.parse-stringify (record { user_id = "ann"; v = 0 }),
)

ann_is_known : find_user_by_id table "ann" world ≡ some ann
unfolding find_user_by_id trim
ann_is_known = refl

secret_is_set : nonblank env.jwt_secret ≡ some "secret"
unfolding trim
secret_is_set = refl

ann_is_trimmed : trim "ann" ≡ "ann"
unfolding trim
ann_is_trimmed = refl

post_refresh-MayRefresh_example :
    (is_ok
        (post_refresh plain_jose plain_payloads token_memory table env no_devices "old" none "new" 5
          world session).0
      ≡ true)
    ↔ MayRefresh plain_jose plain_payloads token_memory table env no_devices "old" none 5 world
        session
post_refresh-MayRefresh_example =
    post_refresh-MayRefresh plain_jose plain_payloads token_memory table env no_devices "old" "new"
      none 5 world session

set_user_password_and_bump_version-revokes_example :
    let changed =
      set_user_password_and_bump_version plain_jose plain_payloads token_memory table "ann" world in
    (changed.0 ≡ true)
    × (post_refresh plain_jose plain_payloads token_memory table env no_devices "old" none "new" 5
          changed.1 session
        ≡ (
          failed (app_error "INVALID_REFRESH_TOKEN" 401 "Refresh token has been revoked"),
          revoke_refresh_token plain_jose plain_payloads token_memory "old" session,
        ))
set_user_password_and_bump_version-revokes_example =
    set_user_password_and_bump_version-revokes plain_jose plain_payloads token_memory table
      token_memory-IsLawful plain_payloads-IsLawful table_users-IsLawful env no_devices "old" "new"
      none (record { user_id = "ann"; v = 0 }) ann 5 world session (ap is_some secret_is_set)
      old_is_stored ann_is_known (sym ann_is_trimmed) refl

-- The development header, which a server outside production takes.
abbrev dev_headers : Headers
dev_headers = record { authorization = none; x_user_id = some " ann "; x_source_device_id = none }

dev_is_let_in :
    require_authenticated_user plain_jose table dev_headers env 7 world
    ≡ ok (record { user = ann; source_device_id = none })
unfolding require_authenticated_user resolve_bearer_auth find_user_by_id trim
dev_is_let_in = refl

require_authenticated_user-IsBearer_example :
    (IsBearer plain_jose table dev_headers env 7 world ann
      ⊎ IsDeveloper plain_jose table dev_headers env world ann)
    × ((env.email_verification_required ≡ false) ⊎ (ann.email_verified ≡ true))
require_authenticated_user-IsBearer_example =
    require_authenticated_user-IsBearer plain_jose table dev_headers env 7 world
      (record { user = ann; source_device_id = none }) dev_is_let_in

abbrev ann_token : String
ann_token =
    plain_jose.sign
      (record { sub = "ann"; email_verified = true; guest = true; source_device_id = none }) 5 60
      "secret"
