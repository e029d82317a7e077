-- ===== src/Web/ConversationList/Laws.antt =====
-- A bump moves a conversation to the top, keeps the others, and leaves the list sorted.
use messaging_system.Common.{
  ◌≡◌, ◌⊎◌, refl, ◌∙◌, ℕ, ◌+◌, ◌≤◌, String, true, some, List, [], ◌∷◌, ltb, if◌then◌else◌, ◌==◌,
  arith, All, Bool-cases, Option-cases, inl, inr, eq_iff,
}
use messaging_system.Web.ConversationList.{
  Conversation, ConversationPage, insert_row, sort_conversations_newest_first, find_row, and_skip,
  apply_conversation_bumped_activity,
}

abbrev pub IsNewestFirst : List Conversation → Type 0
IsNewestFirst [] = Unit
IsNewestFirst (c ∷ cs) = All (λ d. d.updated_at ≤ c.updated_at) cs × IsNewestFirst cs

-- How many rows have an id.
abbrev pub rows_of : String → List Conversation → ℕ
rows_of k [] = 0
rows_of k (c ∷ cs) = (if c.id == k then 1 else 0) + rows_of k cs

All-insert_row :
    (P : Conversation → Type 0) (c : Conversation) (cs : List Conversation)
    → P c
    → All P cs
    → All P (insert_row c cs)
unfolding insert_row
All-insert_row P c [] p h = (p, tt)
All-insert_row P c (d ∷ ds) p h = elim (Bool-cases (ltb c.updated_at d.updated_at)) [
  | inl e ↦ rw e (h.0, All-insert_row P c ds p h.1)
  | inr e ↦ rw e (p, h)
]

All-older :
    (a b : ℕ) (cs : List Conversation)
    → a ≤ b
    → All (λ d. d.updated_at ≤ a) cs
    → All (λ d. d.updated_at ≤ b) cs
All-older a b [] p h = tt
All-older a b (c ∷ cs) p h = (omega (arith, h.0), All-older a b cs p h.1)

insert_row-IsNewestFirst :
    (c : Conversation) (cs : List Conversation) → IsNewestFirst cs → IsNewestFirst (insert_row c cs)
unfolding insert_row
insert_row-IsNewestFirst c [] h = (tt, tt)
insert_row-IsNewestFirst c (d ∷ ds) h = elim (Bool-cases (ltb c.updated_at d.updated_at)) [
  | inl e ↦ rw e (
    All-insert_row (λ x. x.updated_at ≤ d.updated_at) c ds (ground (arith, e)) h.0,
    insert_row-IsNewestFirst c ds h.1,
  )
  | inr e ↦
      rw e ((ground (arith, e), All-older d.updated_at c.updated_at ds (ground (arith, e)) h.0), h)
]

pub sort-IsNewestFirst :
    (cs : List Conversation) → IsNewestFirst (sort_conversations_newest_first cs)
unfolding sort_conversations_newest_first
sort-IsNewestFirst [] = tt
sort-IsNewestFirst (c ∷ cs) =
    insert_row-IsNewestFirst c (sort_conversations_newest_first cs) (sort-IsNewestFirst cs)

rows_of-insert_row :
    (k : String) (c : Conversation) (cs : List Conversation)
    → rows_of k (insert_row c cs) ≡ rows_of k (c ∷ cs)
unfolding insert_row
rows_of-insert_row k c [] = refl
rows_of-insert_row k c (d ∷ ds) = ground (arith, rows_of-insert_row k c ds)

rows_of-sort :
    (k : String) (cs : List Conversation)
    → rows_of k (sort_conversations_newest_first cs) ≡ rows_of k cs
unfolding sort_conversations_newest_first
rows_of-sort k [] = refl
rows_of-sort k (c ∷ cs) =
    omega (arith, rows_of-insert_row k c (sort_conversations_newest_first cs), rows_of-sort k cs)

All-sort :
    (P : Conversation → Type 0) (cs : List Conversation)
    → All P cs
    → All P (sort_conversations_newest_first cs)
unfolding sort_conversations_newest_first
All-sort P [] h = tt
All-sort P (c ∷ cs) h =
    All-insert_row P c (sort_conversations_newest_first cs) h.0 (All-sort P cs h.1)

insert_row-newest :
    (c : Conversation) (cs : List Conversation)
    → All (λ d. d.updated_at ≤ c.updated_at) cs
    → insert_row c cs ≡ c ∷ cs
unfolding insert_row
insert_row-newest c [] h = refl
insert_row-newest c (d ∷ ds) h = ground (arith, h.0)

sort-top :
    (c : Conversation) (cs : List Conversation)
    → All (λ d. d.updated_at ≤ c.updated_at) cs
    → sort_conversations_newest_first (c ∷ cs) ≡ c ∷ sort_conversations_newest_first cs
unfolding sort_conversations_newest_first
sort-top c cs h =
    insert_row-newest c (sort_conversations_newest_first cs)
      (All-sort (λ d. d.updated_at ≤ c.updated_at) cs h)

find_row-inverts :
    (id : String) (c : Conversation) (cs : List Conversation) (row : Conversation)
    (rest : List Conversation)
    → find_row id (c ∷ cs) ≡ some (row, rest)
    → ((c.id ≡ id) × (row ≡ c) × (rest ≡ cs))
      ⊎ ((others : List Conversation) × (find_row id cs ≡ some (row, others)) × (rest ≡ c ∷ others))
unfolding find_row and_skip
find_row-inverts id c cs row rest h = elim (Bool-cases (c.id == id)) [
  | inl e ↦ inl (ground (arith, h, e, eq_iff c.id id), ground (arith, h, e), ground (arith, h, e))
  | inr e ↦ elim (Option-cases (find_row id cs)) [
    | inl f ↦ absurd (ground (arith, h, e, f))
    | inr ((row', others), f) ↦ inr (others, ground (arith, h, e, f), ground (arith, h, e, f))
  ]
]

find_row-nil :
    (id : String) (row : Conversation) (rest : List Conversation)
    → find_row id [] ≡ some (row, rest)
    → ⊥
unfolding find_row
find_row-nil id row rest h = cc

find_row-id :
    (id : String) (cs : List Conversation) (row : Conversation) (rest : List Conversation)
    → find_row id cs ≡ some (row, rest)
    → row.id ≡ id
find_row-id id [] row rest h = absurd (find_row-nil id row rest h)
find_row-id id (c ∷ cs) row rest h = elim (find_row-inverts id c cs row rest h) [
  | inl (e, same, _) ↦ ground (arith, e, same)
  | inr (others, f, _) ↦ find_row-id id cs row others f
]

find_row-rows_of :
    (k id : String) (cs : List Conversation) (row : Conversation) (rest : List Conversation)
    → find_row id cs ≡ some (row, rest)
    → rows_of k (row ∷ rest) ≡ rows_of k cs
find_row-rows_of k id [] row rest h = absurd (find_row-nil id row rest h)
find_row-rows_of k id (c ∷ cs) row rest h = elim (find_row-inverts id c cs row rest h) [
  | inl (e, same, others) ↦ rw (same, others) refl
  | inr (others, f, same) ↦ rw same (ground (arith, find_row-rows_of k id cs row others f))
]

find_row-All :
    (P : Conversation → Type 0) (id : String) (cs : List Conversation) (row : Conversation)
    (rest : List Conversation)
    → find_row id cs ≡ some (row, rest)
    → All P cs
    → All P rest
find_row-All P id [] row rest h p = absurd (find_row-nil id row rest h)
find_row-All P id (c ∷ cs) row rest h p = elim (find_row-inverts id c cs row rest h) [
  | inl (e, same, others) ↦ rw others p.1
  | inr (others, f, same) ↦ rw same (p.0, find_row-All P id cs row others f p.1)
]

find_row-found :
    (id : String) (cs : List Conversation)
    → 1 ≤ rows_of id cs
    → (row : Conversation) × (rest : List Conversation) × (find_row id cs ≡ some (row, rest))
unfolding find_row and_skip
find_row-found id [] h = absurd (omega arith)
find_row-found id (c ∷ cs) h = elim (Bool-cases (c.id == id)) [
  | inl e ↦ (c, cs, rw e refl)
  | inr e ↦
      let (row, rest, f) = find_row-found id cs (ground (arith, h, e)) in
      (row, c ∷ rest, rw (e, f) refl)
]

bumped_page :
    (page : ConversationPage) (id : String) (updated_at : ℕ) (row : Conversation)
    (rest : List Conversation)
    → find_row id page.items ≡ some (row, rest)
    → apply_conversation_bumped_activity page id updated_at ≡ (
      record page {
        items = sort_conversations_newest_first (record row { updated_at = updated_at } ∷ rest);
      },
      true,
    )
unfolding apply_conversation_bumped_activity
bumped_page page id updated_at row rest found = ground (arith, found)

-- A bump of a conversation that the page has, to a time that no row of it is behind, finds it, puts it
-- on top with that time, leaves the page sorted by time, the newest first, and keeps as many rows of
-- each id as there were.
pub apply_conversation_bumped_activity-IsNewestFirst :
    (page : ConversationPage) (id : String) (updated_at : ℕ)
    → 1 ≤ rows_of id page.items
    → All (λ c. c.updated_at ≤ updated_at) page.items
    → let bumped = apply_conversation_bumped_activity page id updated_at in
      (bumped.1 ≡ true)
      × IsNewestFirst bumped.0.items
      × ((k : String) → rows_of k bumped.0.items ≡ rows_of k page.items)
      × ((row : Conversation) × (rest : List Conversation) × (bumped.0.items ≡ row ∷ rest)
          × (row.id ≡ id)
          × (row.updated_at ≡ updated_at))
apply_conversation_bumped_activity-IsNewestFirst page id updated_at has newest =
    let (row, rest, found) = find_row-found id page.items has in
    let top : Conversation = record row { updated_at = updated_at } in
    rw (bumped_page page id updated_at row rest found) (
      refl,
      sort-IsNewestFirst (top ∷ rest),
      λ k. rows_of-sort k (top ∷ rest) ∙ find_row-rows_of k id page.items row rest found,
      (
        top,
        sort_conversations_newest_first rest,
        sort-top top rest
            (find_row-All (λ c. c.updated_at ≤ updated_at) id page.items row rest found newest),
        find_row-id id page.items row rest found,
        refl,
      ),
    )
