-- ===== src/Api/Signaling/Schemas.antt =====
-- What a client sends: under apps/messaging-service/src, validation/webrtcSignalingSchemas.ts, and
-- `inferMediaFromWebRtcOfferSdp` of data/notifications/callIncomingNotification.ts. A length counts
-- code points.
pub mod Fields
use Prim.Native.Char.{code}
use Prim.Native.String
use Prim.Native.String.{[], ◌∷◌}
use messaging_system.Common.{
  ℕ, ◌+◌, String, Bool, true, false, Option, none, some, leb, nat_eq, not, ◌&&◌, ◌||◌,
  if◌then◌else◌, ◌>>=◌,
}

-- A property of the object that was sent.
pub data Field : Type 0 where
  absent null_value other : Field
  text : String → Field
  natural : ℕ → Field

-- `candidate` is none when it is no object; its fields are read as they come.
pub record RawCandidate : Type 0 where
  pub candidate : Field
  pub sdp_mid : Field
  pub sdp_m_line_index : Field

pub record RawSignal : Type 0 where
  pub to_user_id : Field
  pub call_id : Field
  pub sdp : Field
  pub conversation_id : Field
  pub candidate : Option RawCandidate

pub record IceCandidate : Type 0 where
  pub candidate : Option String
  pub sdp_mid : Option (Option String)
  pub sdp_m_line_index : Option (Option ℕ)

-- What every signal has.
pub record SignalBase : Type 0 where
  pub to_user_id : String
  pub call_id : String
  pub conversation_id : Option String

-- `z.string().min(lo).max(hi)`
text_between : ℕ → ℕ → Field → Option String
text_between lo hi (text s) =
    if leb lo (String.count s) && leb (String.count s) hi then some s else none
text_between lo hi absent = none
text_between lo hi null_value = none
text_between lo hi other = none
text_between lo hi (natural n) = none

-- `.optional()`: the outer option is the parse.
optional_text : ℕ → ℕ → Field → Option (Option String)
unfolding text_between
optional_text lo hi absent = some none
optional_text lo hi field = text_between lo hi field >>= λ s. some (some s)

-- `.nullable().optional()`
nullish_text : ℕ → ℕ → Field → Option (Option (Option String))
unfolding text_between
nullish_text lo hi absent = some none
nullish_text lo hi null_value = some (some none)
nullish_text lo hi field = text_between lo hi field >>= λ s. some (some (some s))

nullish_natural : Field → Option (Option (Option ℕ))
nullish_natural absent = some none
nullish_natural null_value = some (some none)
nullish_natural (natural n) = some (some (some n))
nullish_natural other = none
nullish_natural (text s) = none

unfoldable pub parse_base : RawSignal → Option SignalBase
unfolding text_between optional_text
parse_base raw = text_between 1 128 raw.to_user_id >>= λ to_user_id.
    text_between 8 128 raw.call_id >>= λ call_id.
    optional_text 1 128 raw.conversation_id >>= λ conversation_id.
    some (record { to_user_id = to_user_id; call_id = call_id; conversation_id = conversation_id })

-- The offer and the answer have the same schema.
unfoldable pub parse_description : RawSignal → Option (SignalBase × String)
unfolding text_between
parse_description raw =
    parse_base raw >>= λ base. text_between 1 262144 raw.sdp >>= λ sdp. some (base, sdp)

parse_candidate : RawCandidate → Option IceCandidate
unfolding optional_text nullish_text nullish_natural
parse_candidate raw = optional_text 0 4096 raw.candidate >>= λ candidate.
    nullish_text 0 128 raw.sdp_mid >>= λ sdp_mid. nullish_natural raw.sdp_m_line_index >>= λ index.
    some (record { candidate = candidate; sdp_mid = sdp_mid; sdp_m_line_index = index })

unfoldable pub parse_ice_candidate : RawSignal → Option (SignalBase × IceCandidate)
unfolding parse_candidate
parse_ice_candidate raw = parse_base raw >>= λ base.
    raw.candidate >>= λ candidate. parse_candidate candidate >>= λ parsed. some (base, parsed)

-- `\w` of a regular expression
is_word : ℕ → Bool
is_word c =
    (leb 48 c && leb c 57) || (leb 65 c && leb c 90) || nat_eq c 95 || (leb 97 c && leb c 122)

lower : ℕ → ℕ
lower c = if leb 65 c && leb c 90 then c + 32 else c

-- The pattern, in small letters, up to a word's end.
matches_word : String → String → Bool
unfolding is_word lower
matches_word [] [] = true
matches_word [] (c ∷ s) = not (is_word (code c))
matches_word (p ∷ ps) [] = false
matches_word (p ∷ ps) (c ∷ s) = nat_eq (lower (code c)) (code p) && matches_word ps s

-- `/\bm=video\b/i`, behind a character of a word or not
find_video : Bool → String → Bool
unfolding matches_word is_word
find_video behind_word [] = false
find_video behind_word (c ∷ s) =
    let rest = find_video (is_word (code c)) s in
    (not behind_word && matches_word "m=video" (c ∷ s)) || rest

unfoldable pub infer_media_is_video : String → Bool
unfolding find_video
infer_media_is_video sdp = find_video false sdp
