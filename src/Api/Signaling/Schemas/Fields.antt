-- ===== src/Api/Signaling/Schemas/Fields.antt =====
-- What a parsed signal has of the one that was sent.
use mathlib.Core.Path.{subst}
use messaging_system.Common.{
  bind_some, ◌≡◌, refl, ap, ◌∙◌, ℕ, String, Option, none, some, arith, ◌>>=◌,
}
use messaging_system.Api.Signaling.Schemas.{
  Field, absent, null_value, other, text, natural, RawSignal, SignalBase, IceCandidate,
  text_between, optional_text, parse_base, parse_description, parse_ice_candidate,
}

-- An optional text, as it was sent.
abbrev pub IsOptional : Field → Option String → Type 0
IsOptional field none = field ≡ absent
IsOptional field (some s) = field ≡ text s

-- The ids of a signal, as they were sent.
abbrev pub IsBaseOf : RawSignal → SignalBase → Type 0
IsBaseOf raw base =
    (raw.to_user_id ≡ text base.to_user_id)
    × (raw.call_id ≡ text base.call_id)
    × IsOptional raw.conversation_id base.conversation_id

text_between-text :
    (lo hi : ℕ) (field : Field) (s : String) → text_between lo hi field ≡ some s → field ≡ text s
unfolding text_between
text_between-text lo hi (text t) s h = ap text (ground (arith, h))
text_between-text lo hi absent s h = absurd (ground (arith, h))
text_between-text lo hi null_value s h = absurd (ground (arith, h))
text_between-text lo hi other s h = absurd (ground (arith, h))
text_between-text lo hi (natural n) s h = absurd (ground (arith, h))

optional_text-IsOptional :
    (lo hi : ℕ) (field : Field) (o : Option String)
    → optional_text lo hi field ≡ some o
    → IsOptional field o
unfolding optional_text text_between ◌>>=◌
optional_text-IsOptional lo hi (text t) none h = absurd (ground (arith, h))
optional_text-IsOptional lo hi (text t) (some s) h = ap text (ground (arith, h))
optional_text-IsOptional lo hi absent none h = refl
optional_text-IsOptional lo hi absent (some s) h = absurd (ground (arith, h))
optional_text-IsOptional lo hi null_value o h = absurd (ground (arith, h))
optional_text-IsOptional lo hi other o h = absurd (ground (arith, h))
optional_text-IsOptional lo hi (natural n) o h = absurd (ground (arith, h))

pub parse_base-IsBaseOf :
    (raw : RawSignal) (base : SignalBase) → parse_base raw ≡ some base → IsBaseOf raw base
unfolding parse_base
parse_base-IsBaseOf raw base h =
    let (to, e1, h) = bind_some _ _ _ h in
    let (call, e2, h) = bind_some _ _ _ h in
    let (conversation, e3, h) = bind_some _ _ _ h in
    let same : record { to_user_id = to; call_id = call; conversation_id = conversation } ≡ base =
      ground (arith, h) in
    (
      text_between-text _ _ raw.to_user_id to e1 ∙ ap (λ (b : SignalBase). text b.to_user_id) same,
      text_between-text _ _ raw.call_id call e2 ∙ ap (λ (b : SignalBase). text b.call_id) same,
      subst (λ (b : SignalBase). IsOptional raw.conversation_id b.conversation_id) same
          (optional_text-IsOptional _ _ raw.conversation_id conversation e3),
    )

pub parse_description-IsBaseOf :
    (raw : RawSignal) (p : SignalBase × String)
    → parse_description raw ≡ some p
    → IsBaseOf raw p.0 × (raw.sdp ≡ text p.1)
unfolding parse_description
parse_description-IsBaseOf raw p h =
    let (base, e1, h) = bind_some _ _ _ h in
    let (sdp, e2, h) = bind_some _ _ _ h in
    let same : ◌≡◌ {A = SignalBase × String} (base, sdp) p = ground (arith, h) in
    (
      subst (λ (q : SignalBase × String). IsBaseOf raw q.0) same (parse_base-IsBaseOf raw base e1),
      text_between-text _ _ raw.sdp sdp e2 ∙ ap (λ (q : SignalBase × String). text q.1) same,
    )

pub parse_ice_candidate-IsBaseOf :
    (raw : RawSignal) (p : SignalBase × IceCandidate)
    → parse_ice_candidate raw ≡ some p
    → IsBaseOf raw p.0
unfolding parse_ice_candidate
parse_ice_candidate-IsBaseOf raw p h =
    let (base, e1, h) = bind_some _ _ _ h in
    let (candidate, e2, h) = bind_some _ _ _ h in
    let (parsed, e3, h) = bind_some _ _ _ h in
    let same : ◌≡◌ {A = SignalBase × IceCandidate} (base, parsed) p = ground (arith, h) in
    subst (λ (q : SignalBase × IceCandidate). IsBaseOf raw q.0) same
      (parse_base-IsBaseOf raw base e1)
