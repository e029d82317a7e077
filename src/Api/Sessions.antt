-- ===== src/Api/Sessions.antt =====
-- Tokens and authentication: under apps/messaging-service/src, utils/auth/accessToken.ts,
-- refreshTokenRedis.ts, issueTokens.ts and resolveBearer.ts, middleware/requireAuth.ts, `postRefresh`
-- and `postLogout` of controllers/auth.ts, `setUserPasswordAndBumpVersion` of data/users/repo.ts, and
-- `resolveSourceDeviceIdForAccessToken` of data/userPublicKeys/repo.ts. The clock, fresh random
-- tokens, the password's hash and the effective configuration are arguments; `jose`, the hash of a
-- token and Redis are parameters (Tokens). An answer of a handler is its outcome.
pub mod Tokens
pub mod Rotation
pub mod Refresh
pub mod Access
pub mod Authority
pub mod Eligibility
pub mod Memory
mod Tests
use Prim.Native.String
use Prim.Native.String.{[] as empty_text, ◌∷◌ as and_char}
use messaging_system.Common.{
  ℕ, zero, suc, ◌+◌, ◌*◌, String, Bool, true, false, Option, none, some, not, ◌&&◌, trim,
  trim_or_empty, is_empty, is_truthy, starts_with, nat_eq, get_or, if◌then◌else◌, ◌==◌,
}
use messaging_system.Api.Documents.{UserDocument}
use messaging_system.Api.Mongo.{Database, World}
use messaging_system.Api.Send.{find_user_by_id}
use messaging_system.Api.Service.{Outcome, ok, failed, app_error, and_then, ◌>>=◌}
use messaging_system.Api.Sessions.Tokens.{
  Jose, Claims, Payload, TokenStore, Payloads, StoredRefreshPayload,
}

pub record Env : Type 0 where
  pub jwt_secret : Option String
  pub production : Bool
  pub email_verification_required : Bool
  pub access_token_ttl_seconds : ℕ
  pub refresh_token_ttl_seconds : ℕ
  pub guest_access_token_ttl_seconds : ℕ
  pub guest_refresh_token_ttl_seconds : ℕ

pub record AuthTokens : Type 0 where
  pub access_token : String
  pub refresh_token : String
  pub expires_in : ℕ
  pub expires_at : Option ℕ

pub record VerifiedAccessToken : Type 0 where
  pub sub : String
  pub guest : Bool
  pub source_device_id : Option String

-- The headers that authentication reads.
pub record Headers : Type 0 where
  pub authorization : Option String
  pub x_user_id : Option String
  pub x_source_device_id : Option String

pub data ResolveBearerAuthResult : Type 0 where
  jwt : VerifiedAccessToken → ResolveBearerAuthResult
  dev : String → Option String → ResolveBearerAuthResult

pub record AuthenticatedRequestContext : Type 0 where
  pub user : UserDocument
  pub source_device_id : Option String

-- A text without the white space around it, if anything is left.
abbrev pub nonblank : Option String → Option String
nonblank none = none
nonblank (some s) = if is_empty (trim s) then none else some (trim s)

-- `s.slice(n)`
unfoldable pub slice_from : ℕ → String → String
slice_from zero s = s
slice_from (suc n) empty_text = empty_text
slice_from (suc n) (and_char c s) = slice_from n s

abbrev pub secret_key : Env → Outcome String
secret_key env = elim (nonblank env.jwt_secret) [
  | none ↦ failed (app_error "AUTH_NOT_CONFIGURED" 503 "JWT_SECRET is not configured")
  | some key ↦ ok key
]

abbrev pub version_of : UserDocument → ℕ
version_of user = get_or user.refresh_token_version 0

abbrev pub invalid_refresh_token {ℓ} : {A : Type ℓ} → Outcome A
invalid_refresh_token =
    failed (app_error "INVALID_REFRESH_TOKEN" 401 "Invalid or expired refresh token")

abbrev pub subject : ResolveBearerAuthResult → String
subject (jwt v) = v.sub
subject (dev sub id) = sub

abbrev pub device : ResolveBearerAuthResult → Option String
device (jwt v) = v.source_device_id
device (dev sub id) = id

-- The guest claim of a token differs from the user; a development header has none.
abbrev pub mismatches : ResolveBearerAuthResult → UserDocument → Bool
mismatches (jwt v) user = if v.guest then not user.is_guest else user.is_guest
mismatches (dev sub id) user = false

module _ (jose : Jose) where
  unfoldable pub sign_access_token :
      Env → UserDocument → Bool → Option String → ℕ → Outcome (String × ℕ)
  sign_access_token env user guest source_device_id now = secret_key env >>= λ key.
      let expires_in =
        if guest then env.guest_access_token_ttl_seconds else env.access_token_ttl_seconds in
      let claims : Claims = record {
        sub = user.id;
        email_verified = user.email_verified;
        guest = guest;
        source_device_id = nonblank source_device_id;
      } in
      ok (jose.sign claims now expires_in key, expires_in)

  verified_of : Payload → Option VerifiedAccessToken
  verified_of payload = elim (nonblank payload.sub) [
    | none ↦ none
    | some sub ↦ some (record {
      sub = sub;
      guest = payload.guest;
      source_device_id = nonblank payload.source_device_id;
    })
  ]

  unfoldable pub verify_access_token_jwt : String → Env → ℕ → Option VerifiedAccessToken
  unfolding verified_of
  verify_access_token_jwt token env now =
      if is_empty (trim_or_empty env.jwt_secret)
      then none
      else if is_empty (trim token)
      then none
      else elim (jose.verify (trim token) (get_or env.jwt_secret "") now) [
        | none ↦ none
        | some payload ↦ verified_of payload
      ]

  bearer_auth : String → Env → ℕ → Option ResolveBearerAuthResult
  bearer_auth bearer env now =
      let token = trim (slice_from 7 bearer) in
      if is_empty token
      then none
      else elim (verify_access_token_jwt token env now) [ none ↦ none | some v ↦ some (jwt v) ]

  dev_auth : Headers → Env → Option ResolveBearerAuthResult
  dev_auth headers env = if env.production then none else elim (nonblank headers.x_user_id) [
    | none ↦ none
    | some sub ↦ some (dev sub (nonblank headers.x_source_device_id))
  ]

  unfoldable pub resolve_bearer_auth : Headers → Env → ℕ → Option ResolveBearerAuthResult
  unfolding bearer_auth dev_auth
  resolve_bearer_auth headers env now = elim headers.authorization [
    | none ↦ dev_auth headers env
    | some bearer ↦
        if starts_with bearer "Bearer " && is_truthy env.jwt_secret
        then bearer_auth bearer env now
        else dev_auth headers env
  ]

  module _ (db : Database) where
    unfoldable pub require_authenticated_user :
        Headers → Env → ℕ → World db → Outcome AuthenticatedRequestContext
    require_authenticated_user headers env now w = elim (resolve_bearer_auth headers env now) [
      | none ↦ failed (
          app_error "UNAUTHORIZED" 401 (
            if is_empty (trim_or_empty env.jwt_secret)
            then "Set JWT_SECRET or use X-User-Id in non-production"
            else "Missing or invalid bearer token"))
      | some auth ↦ elim (find_user_by_id db (subject auth) w) [
        | none ↦ failed (app_error "UNAUTHORIZED" 401 "User not found")
        | some user ↦
            if mismatches auth user
            then failed (app_error "UNAUTHORIZED" 401 "Access token does not match this user")
            else if env.email_verification_required && not user.email_verified
            then failed
                (app_error "EMAIL_NOT_VERIFIED" 403 "Verify your email before using this resource")
            else ok (record { user = user; source_device_id = device auth })
      ]
    ]
