-- ===== src/Api/Sessions/Eligibility.antt =====
-- Which refresh tokens are exchanged.
use Prim.Native.String
use messaging_system.Common.{
  required-cases, is_empty-trim_empty, ◌≡◌, refl, ℕ, String, true, false, Option, none, some, not,
  ◌&&◌, trim, nat_eq, arith, is_empty, trim_or_empty, trim-trim, get_or, ◌⊎◌, ◌↔◌, inl, inr,
  Option-cases, Bool-cases, ◌∙◌,
}
use messaging_system.Api.Documents.{UserDocument}
use messaging_system.Api.Mongo.{Database, World}
use messaging_system.Api.Send.{find_user_by_id}
use messaging_system.Api.Service.{is_ok, ◌>>=◌}
use messaging_system.Api.Sessions.{Env, version_of, sign_access_token}
use messaging_system.Api.Sessions.Rotation.{
  Devices, resolve_source_device_id_for_access_token, create_refresh_token, get_refresh_payload,
  issue_auth_tokens, refresh_user, post_refresh,
}
use messaging_system.Api.Sessions.Tokens.{Jose, TokenStore, Payloads, StoredRefreshPayload}

module _ (jose : Jose) (payloads : Payloads) (store : TokenStore) (db : Database) where
  -- A device that is named is one of the user's.
  abbrev pub IsOwnDevice : Devices → UserDocument → Option String → Type 0
  IsOwnDevice devices user source_device_id =
      (is_empty (trim_or_empty source_device_id) ≡ true)
      ⊎ (devices (trim user.id, trim_or_empty source_device_id) ≡ true)

  -- The stored text of a token, the user it stands for, and what the refresh demands of both.
  pub record MayRefresh (env : Env) (devices : Devices) (raw : String)
      (source_device_id : Option String) (now : ℕ) (w : World db) (s : store.State) : Type 0 where
    pub text : String
    pub stored : StoredRefreshPayload
    pub user : UserDocument
    pub configured : is_empty (trim_or_empty env.jwt_secret) ≡ false
    pub held : store.get (String.◌++◌ "rt:" (payloads.token_hash raw)) now s ≡ some text
    pub filled : is_empty text ≡ false
    pub parsed : payloads.parse text ≡ some stored
    pub known : find_user_by_id db stored.user_id w ≡ some user
    pub current : get_or user.refresh_token_version 0 ≡ stored.v
    pub verified : (env.email_verification_required ≡ false) ⊎ (user.email_verified ≡ true)
    pub own_device : IsOwnDevice devices user source_device_id

  device-IsOwnDevice :
      (devices : Devices) (user : UserDocument) (id : Option String)
      → is_ok (resolve_source_device_id_for_access_token devices user.id id) ≡ true
      → IsOwnDevice devices user id
  device-IsOwnDevice devices user none h = inl refl
  device-IsOwnDevice devices user (some id) h = elim (Bool-cases (is_empty (trim id))) [
    | inl e ↦ inl e
    | inr e ↦ inr (ground (arith, h, e, trim-trim id))
  ]

  device_of_IsOwnDevice :
      (devices : Devices) (user : UserDocument) (id : Option String)
      → IsOwnDevice devices user id
      → is_ok (resolve_source_device_id_for_access_token devices user.id id) ≡ true
  device_of_IsOwnDevice devices user none h = refl
  device_of_IsOwnDevice devices user (some id) h = elim (Bool-cases (is_empty (trim id))) [
    | inl e ↦ ground (arith, e)
    | inr e ↦ ground (arith, h, e, trim-trim id)
  ]

  -- The handler behind a stored text.
  refreshes :
      (env : Env) (devices : Devices) (raw fresh : String) (source_device_id : Option String)
      (now : ℕ) (w : World db) (s : store.State) (stored : StoredRefreshPayload)
      (user : UserDocument)
      → get_refresh_payload jose payloads store raw now s ≡ some stored
      → find_user_by_id db stored.user_id w ≡ some user
      → is_ok (post_refresh jose payloads store db env devices raw source_device_id fresh now w s).0
        ≡ (not (is_empty (trim_or_empty env.jwt_secret))
            && nat_eq (version_of user) stored.v
            && not (env.email_verification_required && not user.email_verified)
            && is_ok (resolve_source_device_id_for_access_token devices user.id source_device_id))
  unfolding post_refresh refresh_user issue_auth_tokens sign_access_token create_refresh_token ◌>>=◌
  refreshes env devices raw fresh source_device_id now w s stored user found known =
      ground (arith, found, known, Option-cases env.jwt_secret, is_empty-trim_empty)

  found_of_refresh :
      (env : Env) (devices : Devices) (raw fresh : String) (source_device_id : Option String)
      (now : ℕ) (w : World db) (s : store.State)
      → is_ok (post_refresh jose payloads store db env devices raw source_device_id fresh now w s).0
        ≡ true
      → (stored : StoredRefreshPayload) × (user : UserDocument) × (get_refresh_payload jose payloads
            store raw now s
          ≡ some stored)
        × (find_user_by_id db stored.user_id w ≡ some user)
  unfolding post_refresh
  found_of_refresh env devices raw fresh source_device_id now w s h =
      elim (Option-cases (get_refresh_payload jose payloads store raw now s)) [
        | inl e ↦ absurd (ground (arith, h, e))
        | inr (stored, e) ↦ elim (Option-cases (find_user_by_id db stored.user_id w)) [
          | inl f ↦ absurd (ground (arith, h, e, f))
          | inr (user, f) ↦ (stored, user, e, f)
        ]
      ]

  text_of_payload :
      (raw : String) (now : ℕ) (s : store.State) (stored : StoredRefreshPayload)
      → get_refresh_payload jose payloads store raw now s ≡ some stored
      → (text : String) × (store.get (String.◌++◌ "rt:" (payloads.token_hash raw)) now s
          ≡ some text)
        × (is_empty text ≡ false)
        × (payloads.parse text ≡ some stored)
  unfolding get_refresh_payload
  text_of_payload raw now s stored h =
      elim (Option-cases (store.get (String.◌++◌ "rt:" (payloads.token_hash raw)) now s)) [
        | inl e ↦ absurd (ground (arith, h, e))
        | inr (text, e) ↦ (text, e, ground (arith, h, e), ground (arith, h, e))
      ]

  payload_of_text :
      (raw text : String) (now : ℕ) (s : store.State) (stored : StoredRefreshPayload)
      → store.get (String.◌++◌ "rt:" (payloads.token_hash raw)) now s ≡ some text
      → is_empty text ≡ false
      → payloads.parse text ≡ some stored
      → get_refresh_payload jose payloads store raw now s ≡ some stored
  unfolding get_refresh_payload
  payload_of_text raw text now s stored held filled parsed = ground (arith, held, filled, parsed)

  -- A refresh succeeds exactly when a secret is configured; Redis holds a text under the hash of the
  -- token that parses to a known user with the user's present version; the user is verified where that
  -- is required; and a device that is named is one of the user's.
  pub post_refresh-MayRefresh :
      (env : Env) (devices : Devices) (raw fresh : String) (source_device_id : Option String)
      (now : ℕ) (w : World db) (s : store.State)
      → (is_ok
            (post_refresh jose payloads store db env devices raw source_device_id fresh now w s).0
          ≡ true)
        ↔ MayRefresh env devices raw source_device_id now w s
  post_refresh-MayRefresh env devices raw fresh source_device_id now w s = (
    λ h.
        let (stored, user, found, known) =
          found_of_refresh env devices raw fresh source_device_id now w s h in
        let (text, held, filled, parsed) = text_of_payload raw now s stored found in
        let rule =
          refreshes env devices raw fresh source_device_id now w s stored user found known in
        record {
          text = text;
          stored = stored;
          user = user;
          configured = ground (arith, h, rule);
          held = held;
          filled = filled;
          parsed = parsed;
          known = known;
          current = ground (arith, h, rule);
          verified =
              required-cases env.email_verification_required user.email_verified
                (ground (arith, h, rule));
          own_device = device-IsOwnDevice devices user source_device_id (ground (arith, h, rule));
        },
    λ m.
        refreshes env devices raw fresh source_device_id now w s m.stored m.user
          (payload_of_text raw m.text now s m.stored m.held m.filled m.parsed) m.known
        ∙ ground (
          arith,
          m.configured,
          m.current,
          m.verified,
          device_of_IsOwnDevice devices m.user source_device_id m.own_device,
        ),
  )
