-- ===== src/Api/Sessions/Rotation.antt =====
-- Refresh tokens: under apps/messaging-service/src, utils/auth/refreshTokenRedis.ts and
-- issueTokens.ts, and the handlers `postRefresh` and `postLogout` of controllers/auth.ts.
use Prim.Native.String
use messaging_system.Common.{
  ℕ, ◌+◌, ◌*◌, String, Bool, Option, none, some, not, ◌&&◌, is_empty, trim, nat_eq, is_some,
  if◌then◌else◌,
}
use messaging_system.Api.Documents.{UserDocument}
use messaging_system.Api.Mongo.{Database, World}
use messaging_system.Api.Send.{find_user_by_id}
use messaging_system.Api.Service.{Outcome, ok, failed, app_error, and_then}
use messaging_system.Api.Sessions.{
  Env, AuthTokens, nonblank, secret_key, version_of, invalid_refresh_token, sign_access_token,
}
use messaging_system.Api.Sessions.Tokens.{Jose, TokenStore, Payloads, StoredRefreshPayload}

-- `user_device_public_keys` by the user and the device.
abbrev pub Devices : Type 0
Devices = String × String → Bool

abbrev pub resolve_source_device_id_for_access_token :
    Devices → String → Option String → Outcome (Option String)
resolve_source_device_id_for_access_token devices user_id raw = elim (nonblank raw) [
  | none ↦ ok none
  | some id ↦
      if devices (trim user_id, trim id)
      then ok (some id)
      else failed (
          app_error "INVALID_REQUEST" 400 "sourceDeviceId is not a registered device for this user")
]

module _ (jose : Jose) (payloads : Payloads) (store : TokenStore) where
  abbrev pub token_key : String → String
  token_key raw = String.◌++◌ "rt:" (payloads.token_hash raw)

  -- `raw` is the fresh random token.
  unfoldable pub create_refresh_token :
      String → ℕ → String → ℕ → ℕ → store.State → String × store.State
  create_refresh_token user_id refresh_token_version raw ttl now s = (
    raw,
    store.set (token_key raw)
        (payloads.stringify (record { user_id = user_id; v = refresh_token_version })) ttl now s,
  )

  unfoldable pub revoke_refresh_token : String → store.State → store.State
  revoke_refresh_token raw s = store.del (token_key raw) s

  unfoldable pub get_refresh_payload : String → ℕ → store.State → Option StoredRefreshPayload
  get_refresh_payload raw now s = elim (store.get (token_key raw) now s) [
    | none ↦ none
    | some val ↦ if is_empty val then none else payloads.parse val
  ]

  unfoldable pub issue_auth_tokens :
      Env
      → UserDocument
      → Bool
      → Option String
      → String
      → ℕ
      → store.State
      → Outcome AuthTokens × store.State
  issue_auth_tokens env user guest source_device_id fresh now s =
      and_then (sign_access_token jose env user guest source_device_id now, s)
        λ signed s.
          let ttl =
            if guest then env.guest_refresh_token_ttl_seconds else env.refresh_token_ttl_seconds in
          let (refresh_token, t) = create_refresh_token user.id (version_of user) fresh ttl now s in
          (
            ok (record {
              access_token = signed.0;
              refresh_token = refresh_token;
              expires_in = signed.1;
              expires_at = if guest then some (now + signed.1 * 1000) else none;
            }),
            t,
          )

  module _ (db : Database) where
    -- The checks of the user behind a stored token; a token that no longer counts is revoked.
    unfoldable pub refresh_user :
        Env
        → UserDocument
        → StoredRefreshPayload
        → Devices
        → String
        → Option String
        → String
        → ℕ
        → store.State
        → Outcome AuthTokens × store.State
    refresh_user env user stored devices raw source_device_id fresh now s =
        if not (nat_eq (version_of user) stored.v)
        then (
          failed (app_error "INVALID_REFRESH_TOKEN" 401 "Refresh token has been revoked"),
          revoke_refresh_token raw s,
        )
        else if env.email_verification_required && not user.email_verified
        then (failed (app_error "EMAIL_NOT_VERIFIED" 403 "Verify your email before refreshing"), s)
        else and_then
            (resolve_source_device_id_for_access_token devices user.id source_device_id, s)
            λ device s.
              and_then (issue_auth_tokens env user user.is_guest device fresh now s)
                λ tokens s. (ok tokens, revoke_refresh_token raw s)

    unfoldable pub post_refresh :
        Env
        → Devices
        → String
        → Option String
        → String
        → ℕ
        → World db
        → store.State
        → Outcome AuthTokens × store.State
    unfolding refresh_user
    post_refresh env devices raw source_device_id fresh now w s =
        and_then (secret_key env, s)
          λ _ s. elim (get_refresh_payload raw now s) [
            | none ↦ (invalid_refresh_token, s)
            | some stored ↦ elim (find_user_by_id db stored.user_id w) [
              | none ↦ (invalid_refresh_token, revoke_refresh_token raw s)
              | some user ↦ refresh_user env user stored devices raw source_device_id fresh now s
            ]
          ]

    -- Its answer is 204.
    unfoldable pub post_logout : Env → String → store.State → Outcome {0} Unit × store.State
    post_logout env raw s = and_then (secret_key env, s) λ _ s. (ok tt, revoke_refresh_token raw s)

    -- The new hash is not part of a document here; the answer is whether there is such a user.
    unfoldable pub set_user_password_and_bump_version : String → World db → Bool × World db
    set_user_password_and_bump_version user_id w = (
      is_some (db.users.find_one user_id w.users),
      record w {
        users =
            db.users.update_one user_id
              (λ u. record u { refresh_token_version = some (version_of u + 1) }) w.users;
      },
    )
