-- ===== src/Web/ReadDedupe/Laws.antt =====
-- What apps/web-client/src/modules/home/utils/receiptEmitGuards.ts recognises as already read.
use Prim.Native.String
use messaging_system.Common.{
  ◌≡◌, refl, sym, ap, ◌∙◌, ◌↔◌, inl, inr, String, true, false, Option, none, some, List, [], ◌∷◌,
  contains, trim, trim_or_empty, trim-trim_or_empty, is_empty, eq_iff, eq_refl, arith, Bool-cases,
  Option-cases, not, ◌==◌, ◌&&◌, ◌||◌, if◌then◌else◌,
}
use messaging_system.Web.Messaging.State.{Message}
use messaging_system.Web.ReceiptTicks.{entry_of}
use messaging_system.Web.ReadDedupe.{
  HydrateParams, seen_at_of, current_user_has_seen_message, is_seen_peer_message, seen_of, last_id,
  cursor_key, read_cursor_key, hydrate_peer_read_dedupe_from_receipts,
}

-- The message is known, another user sent it, and the receipts have a time, not blank, at which
-- `uid` saw it.
abbrev pub IsSeenFromPeer : HydrateParams → String → String → Type 0
IsSeenFromPeer params uid mid =
    (msg : Message) × (at : String) × (params.messages_by_id mid ≡ some msg)
    × ((msg.sender_id == uid) ≡ false)
    × (seen_at_of (entry_of (params.receipts_by_message_id mid) uid) ≡ some at)
    × (is_empty (trim at) ≡ false)

-- The check of a known message, which trims an id that is trimmed.
known_check :
    (params : HydrateParams) (uid mid : String) (msg : Message) (at : Option String)
    → trim uid ≡ uid
    → is_empty uid ≡ false
    → params.messages_by_id mid ≡ some msg
    → seen_at_of (entry_of (params.receipts_by_message_id mid) uid) ≡ at
    → is_seen_peer_message params uid mid
      ≡ (not (msg.sender_id == uid) && not (is_empty (trim_or_empty at)))
unfolding is_seen_peer_message current_user_has_seen_message
known_check params uid mid msg at t u e f =
    rw (is_seen_peer_message, e, current_user_has_seen_message, t, u, f) refl

unknown_check :
    (params : HydrateParams) (uid mid : String)
    → params.messages_by_id mid ≡ none
    → is_seen_peer_message params uid mid ≡ false
unfolding is_seen_peer_message
unknown_check params uid mid e = ground (arith, e)

check-IsSeenFromPeer :
    (params : HydrateParams) (uid mid : String)
    → trim uid ≡ uid
    → is_empty uid ≡ false
    → is_seen_peer_message params uid mid ≡ true
    → IsSeenFromPeer params uid mid
check-IsSeenFromPeer params uid mid t u h = elim (Option-cases (params.messages_by_id mid)) [
  | inl e ↦ absurd (ground (arith, h, unknown_check params uid mid e))
  | inr (msg, e) ↦
      elim (Option-cases (seen_at_of (entry_of (params.receipts_by_message_id mid) uid))) [
        | inl f ↦ absurd (ground (arith, h, known_check params uid mid msg none t u e f))
        | inr (at, f) ↦
            let c = known_check params uid mid msg (some at) t u e f in
            (msg, at, e, ground (arith, h, c), f, ground (arith, h, c))
      ]
]

check_of_IsSeenFromPeer :
    (params : HydrateParams) (uid mid : String)
    → trim uid ≡ uid
    → is_empty uid ≡ false
    → IsSeenFromPeer params uid mid
    → is_seen_peer_message params uid mid ≡ true
check_of_IsSeenFromPeer params uid mid t u (msg, at, e, own, f, full) =
    ground (arith, own, full, known_check params uid mid msg (some at) t u e f)

-- The loop keeps the ids of the list that pass the check.
contains-seen_of :
    (params : HydrateParams) (uid mid : String) (mids : List String)
    → contains mid (seen_of params uid mids)
      ≡ (contains mid mids && is_seen_peer_message params uid mid)
unfolding seen_of contains
contains-seen_of params uid mid [] = refl
contains-seen_of params uid mid (m ∷ mids) = elim (Bool-cases (m == mid)) [
  | inl e ↦
      let same : m ≡ mid = ground (arith, e, eq_iff m mid) in
      rw (sym same) (ground (arith, contains-seen_of params uid m mids, eq_refl m))
  | inr e ↦ ground (arith, e, contains-seen_of params uid mid mids)
]

-- The result when both ids are there.
hydrated_ids :
    (params : HydrateParams)
    → is_empty (trim_or_empty params.active_conversation_id) ≡ false
    → is_empty (trim_or_empty params.current_user_id) ≡ false
    → (hydrate_peer_read_dedupe_from_receipts params).peer_message_ids_seen
      ≡ seen_of params (trim_or_empty params.current_user_id) params.message_ids
unfolding hydrate_peer_read_dedupe_from_receipts
hydrated_ids params c u = ground (arith, c, u)

hydrated_key :
    (params : HydrateParams)
    → is_empty (trim_or_empty params.active_conversation_id) ≡ false
    → is_empty (trim_or_empty params.current_user_id) ≡ false
    → (hydrate_peer_read_dedupe_from_receipts params).conversation_read_cursor_key
      ≡ cursor_key params
          (trim_or_empty params.active_conversation_id)
          (trim_or_empty params.current_user_id)
unfolding hydrate_peer_read_dedupe_from_receipts
hydrated_key params c u = ground (arith, c, u)

cursor_key-some :
    (params : HydrateParams) (cid uid last : String)
    → last_id params.message_ids ≡ some last
    → cursor_key params cid uid ≡ (
        if is_empty last || not (is_seen_peer_message params uid last)
        then none
        else some (read_cursor_key cid last))
unfolding cursor_key
cursor_key-some params cid uid last e = ground (arith, e)

cursor_key-none :
    (params : HydrateParams) (cid uid : String)
    → last_id params.message_ids ≡ none
    → cursor_key params cid uid ≡ none
unfolding cursor_key
cursor_key-none params cid uid e = ground (arith, e)

cursor_key-IsSeenFromPeer :
    (params : HydrateParams) (cid uid key : String)
    → trim uid ≡ uid
    → is_empty uid ≡ false
    → cursor_key params cid uid ≡ some key
    → (last : String) × (last_id params.message_ids ≡ some last)
      × (is_empty last ≡ false)
      × IsSeenFromPeer params uid last
      × (read_cursor_key cid last ≡ key)
cursor_key-IsSeenFromPeer params cid uid key t u h =
    elim (Option-cases (last_id params.message_ids)) [
      | inl e ↦ absurd (ground (arith, h, cursor_key-none params cid uid e))
      | inr (last, e) ↦
          let k = cursor_key-some params cid uid last e in
          (
            last,
            e,
            ground (arith, h, k),
            check-IsSeenFromPeer params uid last t u (ground (arith, h, k)),
            ground (arith, h, k),
          )
    ]

cursor_key_of_IsSeenFromPeer :
    (params : HydrateParams) (cid uid key last : String)
    → trim uid ≡ uid
    → is_empty uid ≡ false
    → last_id params.message_ids ≡ some last
    → is_empty last ≡ false
    → IsSeenFromPeer params uid last
    → read_cursor_key cid last ≡ key
    → cursor_key params cid uid ≡ some key
cursor_key_of_IsSeenFromPeer params cid uid key last t u e full seen k = ground (
  arith,
  full,
  k,
  cursor_key-some params cid uid last e,
  check_of_IsSeenFromPeer params uid last t u seen,
)

-- With a conversation and a user, the ids that are recognised are those of the list whose message
-- the user saw and another user sent, and there is a key exactly when the last id of the list is such
-- an id and not empty: it is then the conversation, a colon and that id.
pub hydrate_peer_read_dedupe-IsSeenFromPeer :
    (params : HydrateParams) (mid key : String)
    → is_empty (trim_or_empty params.active_conversation_id) ≡ false
    → is_empty (trim_or_empty params.current_user_id) ≡ false
    → let cid = trim_or_empty params.active_conversation_id in
      let uid = trim_or_empty params.current_user_id in
      let hydrated = hydrate_peer_read_dedupe_from_receipts params in
      ((contains mid hydrated.peer_message_ids_seen ≡ true)
        ↔ ((contains mid params.message_ids ≡ true) × IsSeenFromPeer params uid mid))
      × ((hydrated.conversation_read_cursor_key ≡ some key) ↔ (
          (last : String) × (last_id params.message_ids ≡ some last)
          × (is_empty last ≡ false)
          × IsSeenFromPeer params uid last
          × (String.◌++◌ cid (String.◌++◌ ":" last) ≡ key)))
hydrate_peer_read_dedupe-IsSeenFromPeer params mid key c u =
    let uid = trim_or_empty params.current_user_id in
    let cid = trim_or_empty params.active_conversation_id in
    let t = trim-trim_or_empty params.current_user_id in
    let kept = contains-seen_of params uid mid params.message_ids in
    let ids = ap (contains mid) (hydrated_ids params c u) ∙ kept in
    let keys = hydrated_key params c u in
    (
      (
        λ h. (
          ground (arith, h, ids),
          check-IsSeenFromPeer params uid mid t u (ground (arith, h, ids)),
        ),
        λ (listed, seen).
            ground (arith, ids, listed, check_of_IsSeenFromPeer params uid mid t u seen),
      ),
      (
        λ h. cursor_key-IsSeenFromPeer params cid uid key t u (sym keys ∙ h),
        λ (last, e, full, seen, k).
            keys ∙ cursor_key_of_IsSeenFromPeer params cid uid key last t u e full seen k,
      ),
    )
