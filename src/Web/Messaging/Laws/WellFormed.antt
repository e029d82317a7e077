-- ===== src/Web/Messaging/Laws/WellFormed.antt =====
-- The thread reducers keep the id lists and the message table in agreement.
use messaging_system.Common.{
  ◌≡◌, refl, String, Bool, true, false, Option, none, some, List, [], ◌∷◌, ◌++◌, ◌&&◌, ◌||◌, arith,
  Bool-cases, inl, inr, eq_iff, ◌==◌, contains, IsDistinct, get_list, starts_with, contains-append,
  IsDistinct-snoc, contains-without, IsDistinct-without,
}
use messaging_system.Web.Messaging.State.{StoredMessage, MessagingState}
use messaging_system.Web.Messaging.Thread.{
  append_message_from_send, remove_optimistic_message, list_id,
}

-- Whether the row is a message of the conversation; `d` is the answer where there is no row.
abbrev pub row_in : Bool → String → Option StoredMessage → Bool
row_in d c none = d
row_in d c (some m) = m.conversation_id == c

abbrev pub is_in : String → Option StoredMessage → Bool
is_in c o = row_in false c o

-- Whether the row is missing, or a message of the conversation.
abbrev pub is_free_for : String → Option StoredMessage → Bool
is_free_for c o = row_in true c o

abbrev pub ids : MessagingState → String → List String
ids s c = get_list c s.message_ids_by_conversation_id

abbrev pub pending : MessagingState → String → List String
pending s c = get_list c s.pending_outgoing_client_ids_by_conversation_id

-- A conversation lists, once each, exactly the ids of the messages stored for it. What waits for
-- an ack has a client id, and is no message of another conversation.
pub record IsCoherent (s : MessagingState) : Type 0 where
  pub distinct : (c : String) → IsDistinct (ids s c)
  pub listed : (c id : String) → contains id (ids s c) ≡ is_in c (s.messages_by_id id)
  pub client : (c id : String) → contains id (pending s c) ≡ true → starts_with id "client:" ≡ true
  pub fits :
      (c id : String)
      → contains id (pending s c) ≡ true
      → is_free_for c (s.messages_by_id id) ≡ true

-- A row that is free for one conversation is in no other.
pub not-is_in_of_free :
    (c k : String) (o : Option StoredMessage)
    → is_free_for c o ≡ true
    → (c == k) ≡ false
    → is_in k o ≡ false
not-is_in_of_free c k none f e = refl
not-is_in_of_free c k (some m) f e =
    ground (arith, eq_iff m.conversation_id c, eq_iff m.conversation_id k, eq_iff c k)

-- Membership after an append at one key.
pub contains-snoc :
    (x y : String) (xs : List String) → contains x (xs ++ y ∷ []) ≡ (contains x xs || y == x)
unfolding contains
contains-snoc x y xs = ground (arith, contains-append x xs (y ∷ []))

pub list_id-IsDistinct :
    (k id c : String) (s : MessagingState)
    → IsCoherent s
    → IsDistinct (get_list c (list_id k id (ids s k) s.message_ids_by_conversation_id))
list_id-IsDistinct k id c s h = elim (Bool-cases (contains id (ids s k))) [
  | inl e ↦ rw e (h.distinct c)
  | inr e ↦ rw e (elim (Bool-cases (k == c)) [
    | inl f ↦ rw f (IsDistinct-snoc id (ids s k) (h.distinct k) e)
    | inr f ↦ rw f (h.distinct c)
  ])
]

pub contains-list_id :
    (k id c x : String) (s : MessagingState)
    → contains x (get_list c (list_id k id (ids s k) s.message_ids_by_conversation_id))
      ≡ (contains x (ids s c) || (k == c && id == x))
unfolding contains
contains-list_id k id c x s =
    ground (arith, contains-append x (ids s k) (id ∷ []), eq_iff k c, eq_iff id x)

-- An optimistic or acknowledged send keeps the thread coherent.
pub append_message_from_send-IsCoherent :
    (c : String) (m : StoredMessage) (s : MessagingState)
    → IsCoherent s
    → m.conversation_id ≡ c
    → is_free_for c (s.messages_by_id m.id) ≡ true
    → ((k : String) → contains m.id (pending s k) ≡ false)
    → IsCoherent (append_message_from_send c m s)
unfolding append_message_from_send
append_message_from_send-IsCoherent c m s h e f fresh = record {
  distinct = λ k. list_id-IsDistinct c m.id k s h;
  listed = λ k id. ground (
    arith,
    contains-list_id c m.id k id s,
    not-is_in_of_free c k (s.messages_by_id m.id) f,
    eq_iff c m.conversation_id,
    h.listed k id,
    h.listed c id,
    eq_iff m.id id,
    eq_iff m.conversation_id k,
    eq_iff c k,
  );
  client = λ k id. ground (
    arith,
    contains-snoc id m.id (pending s c),
    h.client k id,
    h.client c id,
    eq_iff m.id id,
    eq_iff c k,
  );
  fits = λ k id. ground (
    arith,
    contains-snoc id m.id (pending s c),
    h.fits k id,
    h.fits c id,
    eq_iff m.id id,
    eq_iff c k,
    fresh k,
    eq_iff m.conversation_id k,
  );
}

-- Removing an optimistic row keeps the thread coherent.
pub remove_optimistic_message-IsCoherent :
    (c o : String) (s : MessagingState)
    → IsCoherent s
    → is_free_for c (s.messages_by_id o) ≡ true
    → IsCoherent (remove_optimistic_message c o s)
unfolding remove_optimistic_message
remove_optimistic_message-IsCoherent c o s h f = record {
  distinct = λ k. elim (Bool-cases (c == k)) [
    | inl e ↦ rw e (IsDistinct-without o (ids s c) (h.distinct c))
    | inr e ↦ rw e (h.distinct k)
  ];
  listed = λ k id. ground (
    arith,
    contains-without o id (ids s c),
    not-is_in_of_free c k (s.messages_by_id o) f,
    h.listed k id,
    h.listed c id,
    eq_iff o id,
    eq_iff c k,
    eq_iff o o,
  );
  client = λ k id.
      ground (arith, contains-without o id (pending s c), h.client k id, h.client c id, eq_iff c k);
  fits = λ k id. ground (
    arith,
    contains-without o id (pending s c),
    h.fits k id,
    h.fits c id,
    eq_iff c k,
    eq_iff o id,
  );
}
