-- ===== src/Api/Signaling/Laws.antt =====
-- What is relayed, to whom, and that a refused signal does nothing.

use mathlib.Core.Path.{subst}
use Prim.Native.String
use messaging_system.Common.{
  bind_some, some-injective, ◌≡◌, refl, ap, sym, ◌∙◌, ℕ, String, Bool, false, some, [], ◌∷◌, ◌++◌,
  trim, ◌==◌, arith, Option-cases, Bool-cases, inl, inr, ◌⊎◌,
}
use messaging_system.Api.Documents.{UserDocument}
use messaging_system.Api.Mongo.{Database, World}
use messaging_system.Api.RateLimit.{Caller, is_web_rtc_signal_rate_limited}
use messaging_system.Api.RateLimit.Redis.{Counters}
use messaging_system.Api.Send.{find_user_by_id}
use messaging_system.Api.Send.Request.{assert_guest_guest_direct_messaging_allowed}
use messaging_system.Api.Service.{ok}
use messaging_system.Api.Signaling.{
  SignalName, webrtc_offer, webrtc_answer, webrtc_candidate, webrtc_hangup, Connection, SignalState,
  SocketAuthResult, authenticated, unauthenticated, email_not_verified, acked, refused, on_signal,
  limited_signal, relay_signal, parse_relay, relay_offer, SignalBody, offer, answer, candidate,
  hangup, Relay, assert_web_rtc_signaling_peer_allowed, caller_display_name, caller_username,
}
use messaging_system.Api.Signaling.Schemas.Fields.{
  IsBaseOf, parse_base-IsBaseOf, parse_description-IsBaseOf, parse_ice_candidate-IsBaseOf,
}
use messaging_system.Api.Signaling.Schemas.{text, RawSignal, SignalBase}

module _ (redis : Counters) (db : Database) (describe : SignalName → RawSignal → String) where
  -- A signal that is not acknowledged is relayed to nobody, and changes no collection; it can only have
  -- counted for the rate limit.
  pub on_signal-refused :
      (name : SignalName) (raw : RawSignal) (connection : Connection) (now : ℕ)
      (s : SignalState redis db describe) (code message : String)
      → (on_signal redis db describe name raw connection now s).0 ≡ refused code message
      → ((on_signal redis db describe name raw connection now s).1.emitted ≡ s.emitted)
        × ((on_signal redis db describe name raw connection now s).1.world ≡ s.world)
  unfolding on_signal limited_signal relay_signal
  on_signal-refused name raw connection now s code message h =
      (ground (arith, h), ground (arith, h))

  -- A peer who may be called: the sender and the peer are known, different, and of the same kind.
  pub record IsPeer (from to : String) (w : World db) : Type 0 where
    pub sender : UserDocument
    pub peer : UserDocument
    pub sender_found : find_user_by_id db (trim from) w ≡ some sender
    pub peer_found : find_user_by_id db (trim to) w ≡ some peer
    pub distinct : (trim from == trim to) ≡ false
    pub same_kind : sender.is_guest ≡ peer.is_guest

  allowed-IsPeer :
      (from to : String) (w : World db)
      → assert_web_rtc_signaling_peer_allowed redis db describe from to w ≡ ok tt
      → IsPeer from to w
  unfolding assert_web_rtc_signaling_peer_allowed assert_guest_guest_direct_messaging_allowed
  allowed-IsPeer from to w h = elim (Option-cases (find_user_by_id db (trim from) w)) [
    | inl e ↦ absurd (ground (arith, h, e))
    | inr (sender, e) ↦ elim (Option-cases (find_user_by_id db (trim to) w)) [
      | inl f ↦ absurd (ground (arith, h, e, f))
      | inr (peer, f) ↦ record {
        sender = sender;
        peer = peer;
        sender_found = e;
        peer_found = f;
        distinct = ground (arith, h, e, f);
        same_kind = ground (arith, h, e, f, Bool-cases sender.is_guest, Bool-cases peer.is_guest);
      }
    ]
  ]

  -- The body of an event is of the signal's kind, with the session description that was sent.
  abbrev pub IsBodyOf : SignalName → RawSignal → SignalBody → Type 0
  IsBodyOf webrtc_offer raw (offer sdp display_name username) = raw.sdp ≡ text sdp
  IsBodyOf webrtc_answer raw (answer sdp) = raw.sdp ≡ text sdp
  IsBodyOf webrtc_candidate raw (candidate c) = Unit
  IsBodyOf webrtc_hangup raw hangup = Unit
  IsBodyOf _ raw _ = ⊥

  -- What one relayed signal leaves behind; its base has the ids as they were sent.
  pub record IsRelayed (name : SignalName) (raw : RawSignal) (connection : Connection)
      (s t : SignalState redis db describe) : Type 0 where
    pub user : UserDocument
    pub base : SignalBase
    pub body : SignalBody
    pub is_user : connection.auth ≡ authenticated user
    pub is_base : IsBaseOf raw base
    pub is_body : IsBodyOf name raw body
    pub one_event :
        t.emitted
        ≡ s.emitted
          ++ record {
            room = String.◌++◌ "user:" base.to_user_id;
            from_user_id = user.id;
            call_id = base.call_id;
            conversation_id = base.conversation_id;
            body = body;
          }
            ∷ []
    pub is_peer : IsPeer user.id base.to_user_id s.world

  -- The event of a signal that is parsed.
  abbrev IsEmitted :
      SignalName
      → RawSignal
      → UserDocument
      → Relay redis db describe
      → SignalState redis db describe
      → Type 0
  IsEmitted name raw user relay s =
      (body : SignalBody) × IsBaseOf raw relay.0
      × IsBodyOf name raw body
      × ((relay.1 s).emitted
          ≡ s.emitted
            ++ record {
              room = String.◌++◌ "user:" relay.0.to_user_id;
              from_user_id = user.id;
              call_id = relay.0.call_id;
              conversation_id = relay.0.conversation_id;
              body = body;
            }
              ∷ [])

  parse_relay-IsEmitted :
      (name : SignalName) (raw : RawSignal) (user : UserDocument) (relay : Relay redis db describe)
      (s : SignalState redis db describe)
      → parse_relay redis db describe name raw user ≡ some relay
      → IsEmitted name raw user relay s
  unfolding parse_relay relay_offer
  parse_relay-IsEmitted webrtc_offer raw user relay s h =
      let (p, e, h) = bind_some _ _ _ h in
      let (base, sdp) = parse_description-IsBaseOf raw p e in
      subst (λ r. IsEmitted webrtc_offer raw user r s) (some-injective _ _ h)
        (
          offer p.1 (caller_display_name (find_user_by_id db user.id s.world))
              (caller_username (find_user_by_id db user.id s.world)),
          base,
          sdp,
          refl,
        )
  parse_relay-IsEmitted webrtc_answer raw user relay s h =
      let (p, e, h) = bind_some _ _ _ h in
      let (base, sdp) = parse_description-IsBaseOf raw p e in
      subst (λ r. IsEmitted webrtc_answer raw user r s) (some-injective _ _ h)
        (answer p.1, base, sdp, refl)
  parse_relay-IsEmitted webrtc_candidate raw user relay s h =
      let (p, e, h) = bind_some _ _ _ h in
      subst (λ r. IsEmitted webrtc_candidate raw user r s) (some-injective _ _ h)
        (candidate p.1, parse_ice_candidate-IsBaseOf raw p e, tt, refl)
  parse_relay-IsEmitted webrtc_hangup raw user relay s h =
      let (base, e, h) = bind_some _ _ _ h in
      subst (λ r. IsEmitted webrtc_hangup raw user r s) (some-injective _ _ h)
        (hangup, parse_base-IsBaseOf raw base e, tt, refl)

  relay_signal-acked :
      (name : SignalName) (raw : RawSignal) (connection : Connection) (user : UserDocument)
      (s : SignalState redis db describe)
      → connection.auth ≡ authenticated user
      → (relay_signal redis db describe name raw user s).0 ≡ acked
      → IsRelayed name raw connection s (relay_signal redis db describe name raw user s).1
  unfolding relay_signal
  relay_signal-acked name raw connection user s is_user h =
      elim (Option-cases (parse_relay redis db describe name raw user)) [
        | inl e ↦ absurd (ground (arith, h, e))
        | inr (relay, e) ↦
            let (body, is_base, is_body, emits) = parse_relay-IsEmitted name raw user relay s e in
            let allowed : assert_web_rtc_signaling_peer_allowed redis db describe user.id
                  relay.0.to_user_id s.world
                ≡ ok tt =
              ground (arith, h, e) in
            record {
              user = user;
              base = relay.0;
              body = body;
              is_user = is_user;
              is_base = is_base;
              is_body = is_body;
              one_event = ground (arith, h, e, emits, allowed);
              is_peer = allowed-IsPeer user.id relay.0.to_user_id s.world allowed;
            }
      ]

  Auth-cases :
      (auth : SocketAuthResult)
      → ((user : UserDocument) × (auth ≡ authenticated user))
        ⊎ ((auth ≡ unauthenticated) ⊎ (auth ≡ email_not_verified))
  Auth-cases (authenticated user) = inl (user, refl)
  Auth-cases unauthenticated = inr (inl refl)
  Auth-cases email_not_verified = inr (inr refl)

  -- An acknowledged signal was sent by an authenticated user, and emits one event, of the signal's
  -- kind: to the room of the peer's id as the signal spells it, from the user, with the call, the
  -- conversation and the session description that were sent. The peer, found by that id without the
  -- white space around it, is known, is not the user, and is a guest exactly when the user is.
  pub on_signal-acked :
      (name : SignalName) (raw : RawSignal) (connection : Connection) (now : ℕ)
      (s : SignalState redis db describe)
      → (on_signal redis db describe name raw connection now s).0 ≡ acked
      → IsRelayed name raw connection s (on_signal redis db describe name raw connection now s).1
  unfolding on_signal limited_signal
  on_signal-acked name raw connection now s h = elim (Auth-cases connection.auth) [
    | inr (inl e) ↦ absurd (ground (arith, h, e))
    | inr (inr e) ↦ absurd (ground (arith, h, e))
    | inl (user, e) ↦
        let caller : Caller = record {
          user_id = user.id;
          ip = connection.ip;
          socket_id = some connection.socket_id;
        } in
        let t : SignalState redis db describe = record s {
          counters =
              (is_web_rtc_signal_rate_limited redis connection.limits caller now s.counters).1;
        } in
        let same : on_signal redis db describe name raw connection now s
            ≡ relay_signal redis db describe name raw user t =
          ground (arith, h, e) in
        let relayed =
          relay_signal-acked name raw connection user t e (sym (ap (λ p. p.0) same) ∙ h) in
        subst (IsRelayed name raw connection s) (sym (ap (λ p. p.1) same)) (record {
          user = relayed.user;
          base = relayed.base;
          body = relayed.body;
          is_user = relayed.is_user;
          is_base = relayed.is_base;
          is_body = relayed.is_body;
          one_event = relayed.one_event;
          is_peer = relayed.is_peer;
        })
  ]

  -- The answer to a signal does not depend on the broker: an offer whose publication fails is
  -- acknowledged all the same.
  pub on_signal-broker :
      (name : SignalName) (raw : RawSignal) (connection : Connection) (now : ℕ)
      (s : SignalState redis db describe) (connected : Bool)
      → (on_signal redis db describe name raw connection now
          (record s { world = record s.world { connected = connected } })).0
        ≡ (on_signal redis db describe name raw connection now s).0
  unfolding on_signal limited_signal relay_signal assert_web_rtc_signaling_peer_allowed
      find_user_by_id
  on_signal-broker name raw connection now s connected = ground arith
