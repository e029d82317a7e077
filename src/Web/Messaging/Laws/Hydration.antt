-- ===== src/Web/Messaging/Laws/Hydration.antt =====
-- Hydration of a thread from a fetched page.
use mathlib.Core.List.{reverse_aux}
use messaging_system.Common.{
  ◌≡◌, refl, ap, ◌∙◌, String, Bool, true, false, Option, none, some, List, [], ◌∷◌, ◌&&◌, not,
  arith, Bool-cases, inl, inr, eq_iff, ◌==◌, if◌then◌else◌, contains, contains-head, IsDistinct,
  All, reverse, put, starts_with, Dict, trim_or_empty,
}
use messaging_system.Web.Messaging.State.{Message, StoredMessage, MessagingState}
use messaging_system.Web.Messaging.Merge.{merge_hydrate_fetched_with_existing}
use messaging_system.Web.Messaging.Hydrate.{
  drop_one, drop_stale, store_fetched_one, store_fetched, ids_of, hydrate_messages_from_fetch,
}
use messaging_system.Web.Messaging.Laws.WellFormed.{
  row_in, is_in, is_free_for, ids, IsCoherent, not-is_in_of_free,
}

All-reverse_aux {ℓ} :
    {A : Type ℓ} (P : A → Type 0) (xs ys : List A) → All P xs → All P ys → All P (reverse_aux xs ys)
All-reverse_aux P [] ys h k = k
All-reverse_aux P (x ∷ xs) ys h k = All-reverse_aux P xs (x ∷ ys) h.1 (h.0, k)

reverse_aux-IsDistinct :
    (xs ys : List String)
    → IsDistinct xs
    → IsDistinct ys
    → ((x : String) → contains x xs ≡ true → contains x ys ≡ false)
    → IsDistinct (reverse_aux xs ys)
unfolding contains
reverse_aux-IsDistinct [] ys h k d = k
reverse_aux-IsDistinct (x ∷ xs) ys h k d =
    reverse_aux-IsDistinct xs (x ∷ ys) h.1 (d x (contains-head x xs), k)
      (λ z e. ground (arith, d z, eq_iff x z))

map-reverse_aux :
    (xs ys : List Message) → ids_of (reverse_aux xs ys) ≡ reverse_aux (ids_of xs) (ids_of ys)
map-reverse_aux [] ys = refl
map-reverse_aux (x ∷ xs) ys = map-reverse_aux xs (x ∷ ys)

IsDistinct-ids_of-reverse :
    (ms : List Message) → IsDistinct (ids_of ms) → IsDistinct (ids_of (reverse ms))
unfolding contains
IsDistinct-ids_of-reverse ms h =
    rw (map-reverse_aux ms []) (reverse_aux-IsDistinct (ids_of ms) [] h tt (λ x e. refl))

module _ (new : List String) (p : String) (s : MessagingState) where
  drop_one-messages :
      (id : String)
      → (drop_one new p s).messages_by_id id
        ≡ (if p == id && not (contains p new) then none else s.messages_by_id id)
  unfolding drop_one
  drop_one-messages id = ground arith

  drop_one-ids :
      (drop_one new p s).message_ids_by_conversation_id ≡ s.message_ids_by_conversation_id
  unfolding drop_one
  drop_one-ids = ground arith

  drop_one-pending :
      (drop_one new p s).pending_outgoing_client_ids_by_conversation_id
      ≡ s.pending_outgoing_client_ids_by_conversation_id
  unfolding drop_one
  drop_one-pending = ground arith

-- The rows that the fetch no longer has are gone; the others are as they were.
pub drop_stale-messages :
    (new prev : List String) (s : MessagingState) (id : String)
    → (drop_stale new prev s).messages_by_id id
      ≡ (if contains id prev && not (contains id new) then none else s.messages_by_id id)
unfolding drop_stale contains
drop_stale-messages new [] s id = refl
drop_stale-messages new (p ∷ prev) s id = ground (
  arith,
  drop_stale-messages new prev (drop_one new p s) id,
  drop_one-messages new p s id,
  eq_iff p id,
)

drop_stale-ids :
    (new prev : List String) (s : MessagingState)
    → (drop_stale new prev s).message_ids_by_conversation_id ≡ s.message_ids_by_conversation_id
unfolding drop_stale
drop_stale-ids new [] s = refl
drop_stale-ids new (p ∷ prev) s = drop_stale-ids new prev (drop_one new p s) ∙ drop_one-ids new p s

drop_stale-pending :
    (new prev : List String) (s : MessagingState)
    → (drop_stale new prev s).pending_outgoing_client_ids_by_conversation_id
      ≡ s.pending_outgoing_client_ids_by_conversation_id
unfolding drop_stale
drop_stale-pending new [] s = refl
drop_stale-pending new (p ∷ prev) s =
    drop_stale-pending new prev (drop_one new p s) ∙ drop_one-pending new p s

store_fetched-ids :
    (self_id : String) (ms : List Message) (s : MessagingState)
    → (store_fetched self_id ms s).message_ids_by_conversation_id ≡ s.message_ids_by_conversation_id
unfolding store_fetched store_fetched_one
store_fetched-ids self_id [] s = refl
store_fetched-ids self_id (m ∷ ms) s = store_fetched-ids self_id ms _

store_fetched-pending :
    (self_id : String) (ms : List Message) (s : MessagingState)
    → (store_fetched self_id ms s).pending_outgoing_client_ids_by_conversation_id
      ≡ s.pending_outgoing_client_ids_by_conversation_id
unfolding store_fetched store_fetched_one
store_fetched-pending self_id [] s = refl
store_fetched-pending self_id (m ∷ ms) s = store_fetched-pending self_id ms _

-- A merge keeps the fetched message's identity.
pub merge_hydrate-identity :
    (o : Option StoredMessage) (m : Message)
    → ((merge_hydrate_fetched_with_existing o m).id ≡ m.id)
      × ((merge_hydrate_fetched_with_existing o m).conversation_id ≡ m.conversation_id)
unfolding merge_hydrate_fetched_with_existing
merge_hydrate-identity none m = (refl, refl)
merge_hydrate-identity (some o) m = ground arith

store_fetched_one-row_in :
    (d : Bool) (self_id : String) (m : Message) (s : MessagingState) (k id : String)
    → row_in d k ((store_fetched_one self_id m s).messages_by_id id)
      ≡ (if m.id == id then m.conversation_id == k else row_in d k (s.messages_by_id id))
unfolding store_fetched_one
store_fetched_one-row_in d self_id m s k id =
    ground (arith, merge_hydrate-identity (s.messages_by_id m.id) m)

store_fetched-row_in :
    (d : Bool) (self_id c : String) (ms : List Message) (s : MessagingState) (k id : String)
    → All (λ m. m.conversation_id ≡ c) ms
    → row_in d k ((store_fetched self_id ms s).messages_by_id id)
      ≡ (if contains id (ids_of ms) then c == k else row_in d k (s.messages_by_id id))
unfolding store_fetched contains
store_fetched-row_in d self_id c [] s k id h = refl
store_fetched-row_in d self_id c (m ∷ ms) s k id h = ground (
  arith,
  store_fetched-row_in d self_id c ms (store_fetched_one self_id m s) k id h.1,
  store_fetched_one-row_in d self_id m s k id,
)

contains_nil : (id : String) → contains id [] ≡ false
unfolding contains
contains_nil id = refl

-- What a page must be for its conversation: its own messages, each once, with server ids that no
-- other conversation holds.
pub record IsPage (c : String) (ms : List Message) (s : MessagingState) : Type 0 where
  pub own : All (λ m. m.conversation_id ≡ c) ms
  pub once : IsDistinct (ids_of ms)
  pub server : All (λ m. starts_with m.id "client:" ≡ false) ms
  pub free : All (λ m. is_free_for c (s.messages_by_id m.id) ≡ true) ms

not-client_of_page :
    (ms : List Message) (id : String)
    → All (λ m. starts_with m.id "client:" ≡ false) ms
    → contains id (ids_of ms) ≡ true
    → starts_with id "client:" ≡ false
unfolding contains
not-client_of_page [] id h e = cc
not-client_of_page (m ∷ ms) id h e = ground (arith, not-client_of_page ms id h.1, eq_iff m.id id)

free_of_page :
    (c : String) (by_id : Dict StoredMessage) (ms : List Message) (id : String)
    → All (λ m. is_free_for c (by_id m.id) ≡ true) ms
    → contains id (ids_of ms) ≡ true
    → is_free_for c (by_id id) ≡ true
unfolding contains
free_of_page c by_id [] id h e = cc
free_of_page c by_id (m ∷ ms) id h e =
    ground (arith, free_of_page c by_id ms id h.1, eq_iff m.id id)

is_free_of_is_in :
    (c : String) (o : Option StoredMessage) → is_in c o ≡ true → is_free_for c o ≡ true
is_free_of_is_in c none e = refl
is_free_of_is_in c (some m) e = e

module _ (self_id c : String) (ordered : List Message) (s : MessagingState) where
  abbrev listed_state : MessagingState
  listed_state =
      let dropped = drop_stale (ids_of ordered) (ids s c) s in
      record dropped {
        message_ids_by_conversation_id =
            put c (ids_of ordered) dropped.message_ids_by_conversation_id;
      }

  abbrev filled_state : MessagingState
  filled_state = store_fetched self_id ordered listed_state

  filled-row_in :
      (d : Bool) (k id : String)
      → All (λ m. m.conversation_id ≡ c) ordered
      → row_in d k (filled_state.messages_by_id id) ≡ (
          if contains id (ids_of ordered)
          then c == k
          else if contains id (ids s c)
          then d
          else row_in d k (s.messages_by_id id))
  filled-row_in d k id own = ground (
    arith,
    store_fetched-row_in d self_id c ordered listed_state k id own,
    drop_stale-messages (ids_of ordered) (ids s c) s id,
  )

  filled-ids :
      filled_state.message_ids_by_conversation_id
      ≡ put c (ids_of ordered) s.message_ids_by_conversation_id
  filled-ids =
      store_fetched-ids self_id ordered listed_state
      ∙ ap (put c (ids_of ordered)) (drop_stale-ids (ids_of ordered) (ids s c) s)

  filled-pending :
      filled_state.pending_outgoing_client_ids_by_conversation_id
      ≡ s.pending_outgoing_client_ids_by_conversation_id
  filled-pending =
      store_fetched-pending self_id ordered listed_state
      ∙ drop_stale-pending (ids_of ordered) (ids s c) s

-- A fetched page keeps the thread coherent.
pub hydrate_messages_from_fetch-IsCoherent :
    (c : String) (ms : List Message) (user : Option String) (s : MessagingState)
    → IsCoherent s
    → IsPage c ms s
    → IsCoherent (hydrate_messages_from_fetch c ms user s)
unfolding hydrate_messages_from_fetch
hydrate_messages_from_fetch-IsCoherent c ms user s h page =
    let self_id = trim_or_empty user in
    let ordered = reverse ms in
    let own = All-reverse_aux (λ m. m.conversation_id ≡ c) ms [] page.own tt in
    let server = All-reverse_aux (λ m. starts_with m.id "client:" ≡ false) ms [] page.server tt in
    let free =
      All-reverse_aux (λ m. is_free_for c (s.messages_by_id m.id) ≡ true) ms [] page.free tt in
    record {
      distinct = λ k. rw (filled-ids self_id c ordered s) (elim (Bool-cases (c == k)) [
        | inl e ↦ rw e (IsDistinct-ids_of-reverse ms page.once)
        | inr e ↦ rw e (h.distinct k)
      ]);
      listed = λ k id. rw (filled-ids self_id c ordered s) (
          ground (
            arith,
            filled-row_in self_id c ordered s false k id own,
            h.listed k id,
            h.listed c id,
            free_of_page c s.messages_by_id ordered id free,
            not-is_in_of_free c k (s.messages_by_id id),
            is_free_of_is_in c (s.messages_by_id id),
            eq_iff c k,
          ));
      client = λ k id.
          rw (filled-pending self_id c ordered s) (ground (arith, contains_nil id, h.client k id));
      fits = λ k id. rw (filled-pending self_id c ordered s) (
          ground (
            arith,
            contains_nil id,
            filled-row_in self_id c ordered s true k id own,
            h.client k id,
            h.fits k id,
            not-client_of_page ordered id server,
          ));
    }
