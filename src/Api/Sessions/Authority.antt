-- ===== src/Api/Sessions/Authority.antt =====
-- What an authenticated request stands on.

use messaging_system.Common.{
  required-cases, is_empty-trim_empty, ◌≡◌, refl, ap, ◌∙◌, ℕ, String, true, false, Option, none,
  some, not, ◌&&◌, is_empty, trim, starts_with, trim-trim, arith, Option-cases, inl, inr, ◌⊎◌, sym,
  Bool, trim_or_empty, if◌then◌else◌,
}
use messaging_system.Api.Documents.{UserDocument}
use messaging_system.Api.Mongo.{Database, World}
use messaging_system.Api.Send.{find_user_by_id}
use messaging_system.Api.Service.{ok}
use messaging_system.Api.Sessions.{
  Env, Headers, VerifiedAccessToken, ResolveBearerAuthResult, jwt, dev, nonblank, slice_from,
  verified_of, verify_access_token_jwt, bearer_auth, dev_auth, resolve_bearer_auth, subject,
  mismatches, require_authenticated_user, AuthenticatedRequestContext,
}
use messaging_system.Api.Sessions.Tokens.{Jose, Payload}

nonblank-text : (o : Option String) (s : String) → nonblank o ≡ some s → trim_or_empty o ≡ s
nonblank-text none s h = absurd (ground (arith, h))
nonblank-text (some t) s h = ground (arith, h)

same_kind_of : (g h : Bool) → (if g then not h else h) ≡ false → g ≡ h
same_kind_of true true e = refl
same_kind_of true false e = ground (arith, e)
same_kind_of false true e = ground (arith, e)
same_kind_of false false e = refl

module _ (jose : Jose) (db : Database) where
  -- A token of the authorization header that `jose` verifies with the configured secret names the
  -- user, and claims the user's kind.
  pub record IsBearer (headers : Headers) (env : Env) (now : ℕ) (w : World db) (user : UserDocument)
      : Type 0 where
    pub bearer : String
    pub secret : String
    pub payload : Payload
    pub carried : headers.authorization ≡ some bearer
    pub scheme : starts_with bearer "Bearer " ≡ true
    pub configured : env.jwt_secret ≡ some secret
    pub filled : is_empty (trim secret) ≡ false
    pub verifies : jose.verify (trim (slice_from 7 bearer)) secret now ≡ some payload
    pub stored : find_user_by_id db (trim_or_empty payload.sub) w ≡ some user
    pub same_kind : payload.guest ≡ user.is_guest

  -- Outside of production, the development header names the user.
  abbrev pub IsDeveloper : Headers → Env → World db → UserDocument → Type 0
  IsDeveloper headers env w user =
      (env.production ≡ false)
      × (is_empty (trim_or_empty headers.x_user_id) ≡ false)
      × (find_user_by_id db (trim_or_empty headers.x_user_id) w ≡ some user)

  -- What a verified access token stands on.
  abbrev IsVerified : String → Env → ℕ → VerifiedAccessToken → Type 0
  IsVerified token env now v =
      (secret : String) × (payload : Payload) × (env.jwt_secret ≡ some secret)
      × (is_empty (trim secret) ≡ false)
      × (jose.verify (trim token) secret now ≡ some payload)
      × (trim_or_empty payload.sub ≡ v.sub)
      × (payload.guest ≡ v.guest)

  of_payload :
      (payload : Payload) (v : VerifiedAccessToken)
      → verified_of jose payload ≡ some v
      → (trim_or_empty payload.sub ≡ v.sub) × (payload.guest ≡ v.guest)
  unfolding verified_of
  of_payload payload v h = elim (Option-cases (nonblank payload.sub)) [
    | inl e ↦ absurd (ground (arith, h, e))
    | inr (sub, e) ↦ (nonblank-text payload.sub sub e ∙ ground (arith, h, e), ground (arith, h, e))
  ]

  verify-IsVerified :
      (token : String) (env : Env) (now : ℕ) (v : VerifiedAccessToken)
      → verify_access_token_jwt jose token env now ≡ some v
      → IsVerified token env now v
  unfolding verify_access_token_jwt
  verify-IsVerified token env now v h = elim (Option-cases env.jwt_secret) [
    | inl e ↦ absurd (ground (arith, h, e, is_empty-trim_empty))
    | inr (secret, e) ↦ elim (Option-cases (jose.verify (trim token) secret now)) [
      | inl f ↦ absurd (ground (arith, h, e, f))
      | inr (payload, f) ↦
          let made : verified_of jose payload ≡ some v = ground (arith, h, e, f) in
          let (sub, guest) = of_payload payload v made in
          (secret, payload, e, ground (arith, h, e), f, sub, guest)
    ]
  ]

  -- A token that is let in, up to the user.
  bearer-IsVerified :
      (headers : Headers) (env : Env) (now : ℕ) (v : VerifiedAccessToken)
      → resolve_bearer_auth jose headers env now ≡ some (jwt v)
      → (bearer : String) × (headers.authorization ≡ some bearer)
        × (starts_with bearer "Bearer " ≡ true)
        × IsVerified (trim (slice_from 7 bearer)) env now v
  unfolding resolve_bearer_auth bearer_auth dev_auth
  bearer-IsVerified headers env now v h = elim (Option-cases headers.authorization) [
    | inl e ↦ absurd (ground (arith, h, e))
    | inr (bearer, e) ↦ (
      bearer,
      e,
      ground (arith, h, e),
      verify-IsVerified (trim (slice_from 7 bearer)) env now v (ground (arith, h, e)),
    )
  ]

  dev-header :
      (headers : Headers) (env : Env) (now : ℕ) (sub : String) (id : Option String)
      → resolve_bearer_auth jose headers env now ≡ some (dev sub id)
      → (env.production ≡ false) × (nonblank headers.x_user_id ≡ some sub)
  unfolding resolve_bearer_auth bearer_auth dev_auth
  dev-header headers env now sub id h = (ground (arith, h), ground (arith, h))

  nonblank-filled : (o : Option String) (s : String) → nonblank o ≡ some s → is_empty s ≡ false
  nonblank-filled none s h = absurd (ground (arith, h))
  nonblank-filled (some t) s h = ground (arith, h)

  -- What the user has to be, for a subject that was resolved.
  let_in :
      (headers : Headers) (env : Env) (now : ℕ) (w : World db)
      (context : AuthenticatedRequestContext) (auth : ResolveBearerAuthResult)
      → resolve_bearer_auth jose headers env now ≡ some auth
      → require_authenticated_user jose db headers env now w ≡ ok context
      → (find_user_by_id db (subject auth) w ≡ some context.user)
        × (mismatches auth context.user ≡ false)
        × ((env.email_verification_required && not context.user.email_verified) ≡ false)
  unfolding require_authenticated_user
  let_in headers env now w context auth e h =
      (ground (arith, h, e), ground (arith, h, e), ground (arith, h, e))

  -- A request that is let in acts for a stored user: the subject of a token that verifies with the
  -- configured secret, and whose guest claim is the user's kind; or, outside of production, the user of
  -- the development header. Where verification is required the user's e-mail is verified.
  pub require_authenticated_user-IsBearer :
      (headers : Headers) (env : Env) (now : ℕ) (w : World db)
      (context : AuthenticatedRequestContext)
      → require_authenticated_user jose db headers env now w ≡ ok context
      → (IsBearer headers env now w context.user ⊎ IsDeveloper headers env w context.user)
        × ((env.email_verification_required ≡ false) ⊎ (context.user.email_verified ≡ true))
  unfolding require_authenticated_user
  require_authenticated_user-IsBearer headers env now w context h =
      elim (Option-cases (resolve_bearer_auth jose headers env now)) [
        | inl e ↦ absurd (ground (arith, h, e))
        | inr (jwt v, e) ↦
            let (known, kind, verified) = let_in headers env now w context (jwt v) e h in
            let (bearer, carried, scheme, is_verified) = bearer-IsVerified headers env now v e in
            let (secret, payload, configured, filled, verifies, sub, guest) = is_verified in
            (
              inl (record {
                bearer = bearer;
                secret = secret;
                payload = payload;
                carried = carried;
                scheme = scheme;
                configured = configured;
                filled = filled;
                verifies =
                    ap (λ t. jose.verify t secret now) (sym (trim-trim (slice_from 7 bearer)))
                    ∙ verifies;
                stored = ap (λ k. find_user_by_id db k w) sub ∙ known;
                same_kind = guest ∙ same_kind_of v.guest context.user.is_guest kind;
              }),
              required-cases env.email_verification_required context.user.email_verified verified,
            )
        | inr (dev name id, e) ↦
            let (known, kind, verified) = let_in headers env now w context (dev name id) e h in
            let (open_mode, named) = dev-header headers env now name id e in
            let text = nonblank-text headers.x_user_id name named in
            (
              inr (
                open_mode,
                ap is_empty text ∙ nonblank-filled headers.x_user_id name named,
                ap (λ k. find_user_by_id db k w) text ∙ known,
              ),
              required-cases env.email_verification_required context.user.email_verified verified,
            )
      ]
