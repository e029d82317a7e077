-- ===== src/Api/SocketAuth.antt =====
-- The authentication of a socket when it connects:
-- apps/messaging-service/src/utils/realtime/socketAuth.ts. A field of the handshake that is not a
-- text is `none`; the effective configuration is part of `Env`.
pub mod Laws
mod Tests
use messaging_system.Common.{
  ℕ, String, Bool, true, false, Option, none, some, not, ◌&&◌, trim, trim_or_empty, is_empty,
  is_truthy, starts_with, if◌then◌else◌,
}
use messaging_system.Api.Documents.{UserDocument}
use messaging_system.Api.Mongo.{Database, World}
use messaging_system.Api.Send.{find_user_by_id}
use messaging_system.Api.Sessions.{Env, nonblank, slice_from, verify_access_token_jwt}
use messaging_system.Api.Sessions.Tokens.{Jose}
use messaging_system.Api.Signaling.{
  SocketAuthResult, authenticated, unauthenticated, email_not_verified,
}

-- `handshake.auth`, when it is an object
pub record HandshakeAuth : Type 0 where
  pub token : Option String
  pub access_token : Option String
  pub authorization : Option String
  pub user_id : Option String

pub record Handshake : Type 0 where
  pub auth : Option HandshakeAuth
  pub header_authorization : Option String

pub data SocketHandshakeAuth : Type 0 where
  from_jwt : String → Bool → SocketHandshakeAuth
  from_dev : String → SocketHandshakeAuth

abbrev pub read_user_id_from_handshake_auth : Option HandshakeAuth → Option String
read_user_id_from_handshake_auth none = none
read_user_id_from_handshake_auth (some a) = nonblank a.user_id

-- `raw.slice('Bearer '.length).trim()`, when it starts with `Bearer `
abbrev pub bearer_token : String → Option String
bearer_token raw = if starts_with raw "Bearer " then some (trim (slice_from 7 raw)) else none

abbrev pub auth_token : Option HandshakeAuth → Option String
auth_token none = none
auth_token (some a) = elim a.token [
  | some token ↦ some (trim token)
  | none ↦ elim a.access_token [
    | some token ↦ some (trim token)
    | none ↦ elim a.authorization [ some raw ↦ bearer_token (trim raw) | none ↦ none ]
  ]
]

-- The token of the header, when there is none yet.
abbrev pub or_header_token : Option String → Option String → Option String
or_header_token token none = token
or_header_token token (some header) =
    if not (is_truthy token) && starts_with header "Bearer "
    then some (trim (slice_from 7 header))
    else token

abbrev pub dev_user : Handshake → Env → Option SocketHandshakeAuth
dev_user socket env =
    if env.production then none else elim (read_user_id_from_handshake_auth socket.auth) [
      | none ↦ none
      | some sub ↦ some (from_dev sub)
    ]

abbrev pub subject_of : SocketHandshakeAuth → String
subject_of (from_jwt sub guest) = sub
subject_of (from_dev sub) = sub

abbrev pub claims_another_kind : SocketHandshakeAuth → UserDocument → Bool
claims_another_kind (from_jwt sub guest) user = if guest then not user.is_guest else user.is_guest
claims_another_kind (from_dev sub) user = false

module _ (jose : Jose) where
  unfoldable pub resolve_handshake_access_auth : Handshake → Env → ℕ → Option SocketHandshakeAuth
  resolve_handshake_access_auth socket env now =
      elim (or_header_token (auth_token socket.auth) socket.header_authorization) [
        | none ↦ dev_user socket env
        | some token ↦
            if is_empty token
            then dev_user socket env
            else if is_empty (trim_or_empty env.jwt_secret)
            then dev_user socket env
            else elim (verify_access_token_jwt jose token env now) [
              | none ↦ none
              | some verified ↦ some (from_jwt verified.sub verified.guest)
            ]
      ]

  module _ (db : Database) where
    unfoldable pub resolve_socket_auth : Handshake → Env → ℕ → World db → SocketAuthResult
    resolve_socket_auth socket env now w = elim (resolve_handshake_access_auth socket env now) [
      | none ↦ unauthenticated
      | some auth ↦ elim (find_user_by_id db (subject_of auth) w) [
        | none ↦ unauthenticated
        | some user ↦
            if claims_another_kind auth user
            then unauthenticated
            else if env.email_verification_required && not user.email_verified
            then email_not_verified
            else authenticated user
      ]
    ]
