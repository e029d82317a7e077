-- ===== src/Web/Messaging/Laws/Ids.antt =====
-- The id lists that the reducers build stay distinct, and hold what they should.
use messaging_system.Common.{
  ◌≡◌, refl, ◌∙◌, ap, String, true, false, none, some, List, [], ◌∷◌, ◌++◌, ◌&&◌, ◌||◌, not, arith,
  eq_iff, ◌==◌, if◌then◌else◌, contains, IsDistinct, replace, index_of, inl, inr, Bool-cases,
  Option-cases, contains-append, contains-replace, IsDistinct-replace, set-index_of,
  contains_of_index_of, ℕ, sym, eq_refl, index_of-none, get_list, Dict, IsDistinct-snoc,
  not-contains_of_index_of-none, without_of_not-contains,
}
use messaging_system.Web.Messaging.Merge.{dedupe_ids_stable, dedupe_from}
use messaging_system.Web.Messaging.Thread.{adopt_id, acked_ids, list_id}

-- An id is kept exactly when it was not seen before.
contains-dedupe_from :
    (x : String) (seen ids : List String)
    → contains x (dedupe_from seen ids) ≡ (contains x ids && not (contains x seen))
unfolding dedupe_from contains
contains-dedupe_from x seen [] = refl
contains-dedupe_from x seen (y ∷ ys) =
    ground (arith, contains-dedupe_from x seen ys, contains-dedupe_from x (y ∷ seen) ys, eq_iff y x)

dedupe_from-IsDistinct : (seen ids : List String) → IsDistinct (dedupe_from seen ids)
unfolding dedupe_from contains
dedupe_from-IsDistinct seen [] = tt
dedupe_from-IsDistinct seen (y ∷ ys) = elim (Bool-cases (contains y seen)) [
  | inl e ↦ rw e (dedupe_from-IsDistinct seen ys)
  | inr e ↦ rw e (
    ground (arith, contains-dedupe_from y (y ∷ seen) ys, eq_iff y y),
    dedupe_from-IsDistinct (y ∷ seen) ys,
  )
]

-- Distinct ids that were not seen pass unchanged.
dedupe_from_self :
    (seen ids : List String)
    → IsDistinct ids
    → ((x : String) → contains x ids ≡ true → contains x seen ≡ false)
    → dedupe_from seen ids ≡ ids
unfolding dedupe_from contains
dedupe_from_self seen [] h d = refl
dedupe_from_self seen (y ∷ ys) h d =
    rw (d y (ground (arith, eq_iff y y)))
      (ap (◌∷◌ y) (dedupe_from_self (y ∷ seen) ys h.1 (λ x e. ground (arith, d x, eq_iff y x))))

pub dedupe_ids_stable-IsDistinct : (ids : List String) → IsDistinct (dedupe_ids_stable ids)
unfolding dedupe_ids_stable
dedupe_ids_stable-IsDistinct ids = dedupe_from-IsDistinct [] ids

pub contains-dedupe_ids_stable :
    (x : String) (ids : List String) → contains x (dedupe_ids_stable ids) ≡ contains x ids
unfolding dedupe_ids_stable contains
contains-dedupe_ids_stable x ids = ground (arith, contains-dedupe_from x [] ids)

pub dedupe_ids_stable_self : (ids : List String) → IsDistinct ids → dedupe_ids_stable ids ≡ ids
unfolding dedupe_ids_stable contains
dedupe_ids_stable_self ids h = dedupe_from_self [] ids h (λ x e. refl)

abbrev closed_ids : String → String → List String → List String
closed_ids o id ids = if contains id ids then ids else ids ++ id ∷ []

adopt_id_missing :
    (o id : String) (ids : List String)
    → index_of o ids ≡ none
    → adopt_id o id ids ≡ dedupe_ids_stable (closed_ids o id ids)
unfolding adopt_id
adopt_id_missing o id ids e =
    rw (e, adopt_id) (rw (without_of_not-contains o ids (not-contains_of_index_of-none o ids e)))

adopt_id_listed :
    (o id : String) (ids : List String) {i : ℕ}
    → index_of o ids ≡ some i
    → adopt_id o id ids ≡ dedupe_ids_stable (replace o id ids)
unfolding adopt_id
adopt_id_listed o id ids {i} e = rw (e, adopt_id) (rw (set-index_of o id ids i e))

contains-closed_ids :
    (o id w : String) (ids : List String)
    → contains o ids ≡ false
    → contains w (closed_ids o id ids) ≡ (id == w || (contains w ids && not (o == w)))
unfolding contains
contains-closed_ids o id w ids e =
    ground (arith, contains-append w ids (id ∷ []), eq_iff id w, eq_iff o w)

-- Where the optimistic id stood the server's id stands, and every other id is kept.
pub contains-adopt_id :
    (o id w : String) (ids : List String)
    → IsDistinct ids
    → contains w (adopt_id o id ids) ≡ (id == w || (contains w ids && not (o == w)))
contains-adopt_id o id w ids h = elim (Option-cases (index_of o ids)) [
  | inl e ↦
      ap (contains w) (adopt_id_missing o id ids e)
      ∙ contains-dedupe_ids_stable w (closed_ids o id ids)
      ∙ contains-closed_ids o id w ids (not-contains_of_index_of-none o ids e)
  | inr (i, e) ↦
      ap (contains w) (adopt_id_listed o id ids e)
      ∙ contains-dedupe_ids_stable w (replace o id ids)
      ∙ contains-replace o id w ids h (contains_of_index_of o ids i e)
]

pub adopt_id-IsDistinct : (o id : String) (ids : List String) → IsDistinct (adopt_id o id ids)
adopt_id-IsDistinct o id ids = elim (Option-cases (index_of o ids)) [
  | inl e ↦ rw (adopt_id_missing o id ids e) (dedupe_ids_stable-IsDistinct _)
  | inr (i, e) ↦ rw (adopt_id_listed o id ids e) (dedupe_ids_stable-IsDistinct _)
]

-- With the optimistic id listed once and the server's not, adoption is a replacement in place.
pub adopt_id-replace :
    (o id : String) (ids : List String)
    → IsDistinct ids
    → contains o ids ≡ true
    → contains id ids ≡ false
    → adopt_id o id ids ≡ replace o id ids
adopt_id-replace o id ids h c f = elim (Option-cases (index_of o ids)) [
  | inl e ↦ ground (arith, not-contains_of_index_of-none o ids e)
  | inr (i, e) ↦
      adopt_id_listed o id ids e
      ∙ dedupe_ids_stable_self (replace o id ids) (IsDistinct-replace o id ids h c f)
]

acked_ids_missing :
    (c o id : String) (lists : Dict (List String))
    → IsDistinct (get_list c lists)
    → index_of o (get_list c lists) ≡ none
    → get_list c (list_id c id (get_list c lists) lists) ≡ adopt_id o id (get_list c lists)
acked_ids_missing c o id lists h e =
    rw (adopt_id_missing o id (get_list c lists) e)
      (elim (Bool-cases (contains id (get_list c lists))) [
        | inl f ↦ rw f (sym (dedupe_ids_stable_self (get_list c lists) h))
        | inr f ↦
            rw (f, eq_refl c)
              (sym (
                dedupe_ids_stable_self (get_list c lists ++ id ∷ [])
                  (IsDistinct-snoc id (get_list c lists) h f)))
      ])

-- The ack and the echo change the list of the conversation in the same way, and no other list.
pub acked_ids_lem :
    (c o id k : String) (lists : Dict (List String))
    → IsDistinct (get_list c lists)
    → get_list k (acked_ids c o id lists)
      ≡ (if c == k then adopt_id o id (get_list c lists) else get_list k lists)
unfolding acked_ids
acked_ids_lem c o id k lists h = elim (Option-cases (index_of o (get_list c lists))) [
  | inl e ↦ ground (arith, e, acked_ids_missing c o id lists h e, eq_iff c k, eq_refl c)
  | inr (i, e) ↦ ground (
    arith,
    e,
    adopt_id_listed o id (get_list c lists) e,
    set-index_of o id (get_list c lists) i e,
    eq_iff c k,
  )
]

-- A second adoption of the same ids changes nothing.
pub adopt_id_idempotent :
    (o id : String) (ids : List String)
    → IsDistinct ids
    → (id == o) ≡ false
    → adopt_id o id (adopt_id o id ids) ≡ adopt_id o id ids
adopt_id_idempotent o id ids h e =
    let once = adopt_id o id ids in
    let absent : contains o once ≡ false =
      ground (arith, contains-adopt_id o id o ids h, eq_refl o, e) in
    let present : contains id once ≡ true =
      ground (arith, contains-adopt_id o id id ids h, eq_refl id) in
    adopt_id_missing o id once (index_of-none o once absent)
    ∙ rw present (dedupe_ids_stable_self once (adopt_id-IsDistinct o id ids))
