-- ===== src/Api/SocketAuth/Laws.antt =====
-- That apps/messaging-service/src/utils/realtime/socketAuth.ts lets in whom
-- middleware/requireAuth.ts does.

use messaging_system.Common.{
  ◌≡◌, refl, ℕ, String, true, Option, none, some, arith, Option-cases, Bool-cases, is_empty,
  is_truthy, trim, trim_or_empty, false, inl, inr, ◌↔◌,
}
use messaging_system.Api.Documents.{UserDocument}
use messaging_system.Api.Mongo.{Database, World}
use messaging_system.Api.Service.{ok}
use messaging_system.Api.Sessions.{
  slice_from, Env, Headers, jwt, resolve_bearer_auth, verify_access_token_jwt,
  require_authenticated_user, AuthenticatedRequestContext, ResolveBearerAuthResult,
}
use messaging_system.Api.Sessions.Tokens.{Jose}
use messaging_system.Api.Signaling.{authenticated}
use messaging_system.Api.SocketAuth.{
  SocketHandshakeAuth, from_jwt, from_dev, resolve_handshake_access_auth, resolve_socket_auth,
}

-- What a handshake keeps of a token.
abbrev handshake_of : Option ResolveBearerAuthResult → Option SocketHandshakeAuth
handshake_of none = none
handshake_of (some (jwt v)) = some (from_jwt v.sub v.guest)
handshake_of (some (ResolveBearerAuthResult.dev sub id)) = some (from_dev sub)

truthy-trimmed : (o : Option String) → is_empty (trim_or_empty o) ≡ false → is_truthy o ≡ true
unfolding trim
truthy-trimmed none h = absurd (ground (arith, h))
truthy-trimmed (some String.[]) h = absurd (ground (arith, h))
truthy-trimmed (some (String.◌∷◌ c s)) h = refl

module _ (jose : Jose) where
  blank_secret :
      (token : String) (env : Env) (now : ℕ)
      → is_empty (trim_or_empty env.jwt_secret) ≡ true
      → verify_access_token_jwt jose token env now ≡ none
  unfolding verify_access_token_jwt
  blank_secret token env now h = ground (arith, h)

  -- In production, with the header alone.
  handshake_in_production :
      (headers : Headers) (env : Env) (now : ℕ)
      → env.production ≡ true
      → resolve_handshake_access_auth jose
          (record { auth = none; header_authorization = headers.authorization })
          env
          now
        ≡ handshake_of (resolve_bearer_auth jose headers env now)
  unfolding resolve_handshake_access_auth resolve_bearer_auth
  handshake_in_production headers env now p = elim (Option-cases headers.authorization) [
    | inl e ↦ ground (arith, p, e)
    | inr (bearer, e) ↦
        let token = trim (slice_from 7 bearer) in
        elim (Bool-cases (is_empty (trim_or_empty env.jwt_secret))) [
          | inl blank ↦ ground (arith, p, e, blank, blank_secret token env now blank)
          | inr filled ↦ ground (arith, p, e, filled, truthy-trimmed env.jwt_secret filled)
        ]
  ]

  module _ (db : Database) where
    -- In production, a socket whose handshake has only an authorization header is let in as a user
    -- exactly when a request with that header is.
    pub resolve_socket_auth-require_authenticated_user :
        (headers : Headers) (env : Env) (now : ℕ) (w : World db) (user : UserDocument)
        → env.production ≡ true
        → (resolve_socket_auth jose db
              (record { auth = none; header_authorization = headers.authorization })
              env
              now
              w
            ≡ authenticated user)
          ↔ ((context : AuthenticatedRequestContext) × (require_authenticated_user jose db headers
                  env now w
                ≡ ok context)
              × (context.user ≡ user))
    unfolding resolve_socket_auth require_authenticated_user
    resolve_socket_auth-require_authenticated_user headers env now w user p =
        let same = handshake_in_production headers env now p in
        elim (Option-cases (resolve_bearer_auth jose headers env now)) [
          | inl e ↦ (
            λ h. absurd (ground (arith, h, e, same)),
            λ (context, h, u). absurd (ground (arith, h, e)),
          )
          | inr (jwt v, e) ↦ (
            λ h. (
              record { user = user; source_device_id = v.source_device_id },
              ground (arith, h, e, same),
              refl,
            ),
            λ (context, h, u). ground (arith, h, e, same, u),
          )
          | inr (ResolveBearerAuthResult.dev sub id, e) ↦ (
            λ h. (record { user = user; source_device_id = id }, ground (arith, h, e, same), refl),
            λ (context, h, u). ground (arith, h, e, same, u),
          )
        ]
