-- ===== src/Api/Sessions/Refresh.antt =====
-- Rotation of refresh tokens, and what a change of the password revokes.

use messaging_system.Common.{
  ◌≡◌, refl, ℕ, ◌+◌, String, true, false, Option, some, not, ◌&&◌, trim, if◌then◌else◌, arith,
  is_some,
}
use messaging_system.Api.Documents.{UserDocument}
use messaging_system.Api.Mongo.{Database, World, IsLawful}
use messaging_system.Api.Send.{find_user_by_id}
use messaging_system.Api.Service.{ok, failed, app_error}
use messaging_system.Api.Sessions.{Env, nonblank, version_of}
use messaging_system.Api.Sessions.Rotation.{
  Devices, resolve_source_device_id_for_access_token, create_refresh_token, revoke_refresh_token,
  get_refresh_payload, refresh_user, post_refresh, set_user_password_and_bump_version,
}
use messaging_system.Api.Sessions.Tokens.{
  Jose, TokenStore, Payloads, StoredRefreshPayload, IsLawfulStore, IsLawfulPayloads,
}

module _ (jose : Jose) (payloads : Payloads) (store : TokenStore) (db : Database)
    (lawful : IsLawfulStore store) (json : IsLawfulPayloads payloads) where
  module _ (env : Env) (devices : Devices) (raw fresh : String)
      (source_device_id device : Option String) (key : String) (stored : StoredRefreshPayload)
      (user : UserDocument) (now : ℕ) (w : World db) (s : store.State)
      (configured : nonblank env.jwt_secret ≡ some key)
      (found : get_refresh_payload jose payloads store raw now s ≡ some stored)
      (known : find_user_by_id db stored.user_id w ≡ some user)
      (current : version_of user ≡ stored.v)
      (verified : (env.email_verification_required && not user.email_verified) ≡ false)
      (own_device : resolve_source_device_id_for_access_token devices user.id source_device_id
        ≡ ok device) where
    abbrev ttl : ℕ
    ttl =
        if user.is_guest then env.guest_refresh_token_ttl_seconds else env.refresh_token_ttl_seconds

    abbrev after : store.State
    after =
        revoke_refresh_token jose payloads store raw
          (create_refresh_token jose payloads store user.id (version_of user) fresh ttl now s).1

  -- After a change of the password, a refresh token of the user that was in force is refused, and
  -- revoked.
  pub set_user_password_and_bump_version-revokes :
      (users : IsLawful (λ (d : UserDocument). d.id) db.users) (env : Env) (devices : Devices)
      (raw fresh : String) (source_device_id : Option String) (stored : StoredRefreshPayload)
      (user : UserDocument) (now : ℕ) (w : World db) (s : store.State)
      → is_some (nonblank env.jwt_secret) ≡ true
      → get_refresh_payload jose payloads store raw now s ≡ some stored
      → find_user_by_id db stored.user_id w ≡ some user
      → user.id ≡ trim stored.user_id
      → version_of user ≡ stored.v
      → let changed = set_user_password_and_bump_version jose payloads store db user.id w in
        (changed.0 ≡ true)
        × (post_refresh jose payloads store db env devices raw source_device_id fresh now changed.1
              s
            ≡ (
              failed (app_error "INVALID_REFRESH_TOKEN" 401 "Refresh token has been revoked"),
              revoke_refresh_token jose payloads store raw s,
            ))
  unfolding post_refresh refresh_user set_user_password_and_bump_version find_user_by_id
  set_user_password_and_bump_version-revokes users env devices raw fresh source_device_id stored
        user now w s configured found known same current =
      ground (
        arith,
        users.find-update user.id
            (λ u. record u { refresh_token_version = some (version_of u + 1) }) w.users user
            (λ e. refl),
        configured,
        found,
        known,
        same,
        current,
      )
