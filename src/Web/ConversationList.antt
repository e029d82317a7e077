-- ===== src/Web/ConversationList.antt =====
-- The list of conversations that the client holds:
-- apps/web-client/src/modules/home/utils/conversationListCache.ts. A date is its number of
-- milliseconds; the cache of SWR, which the last function of that file changes, is left out.
pub mod Laws
mod Tests
use messaging_system.Common.{
  ℕ, String, Bool, true, false, Option, none, some, List, [], ◌∷◌, ltb, if◌then◌else◌, ◌==◌,
}

pub record Conversation : Type 0 where
  pub id : String
  pub title : Option String
  pub is_group : Option Bool
  pub peer_user_id : Option String
  pub member_ids : Option (List String)
  pub updated_at : ℕ

pub record ConversationPage : Type 0 where
  pub items : List Conversation
  pub next_cursor : Option String
  pub has_more : Option Bool

-- Before the rows that are not newer: the sort is stable.
insert_row : Conversation → List Conversation → List Conversation
insert_row c [] = c ∷ []
insert_row c (d ∷ ds) =
    let rest = insert_row c ds in if ltb c.updated_at d.updated_at then d ∷ rest else c ∷ d ∷ ds

unfoldable pub sort_conversations_newest_first : List Conversation → List Conversation
unfolding insert_row
sort_conversations_newest_first [] = []
sort_conversations_newest_first (c ∷ cs) = insert_row c (sort_conversations_newest_first cs)

and_skip :
    Conversation
    → Option (Conversation × List Conversation)
    → Option (Conversation × List Conversation)
and_skip c none = none
and_skip c (some (row, rest)) = some (row, c ∷ rest)

-- The first row with the id, and the others.
find_row : String → List Conversation → Option (Conversation × List Conversation)
unfolding and_skip
find_row id [] = none
find_row id (c ∷ cs) =
    let rest = find_row id cs in if c.id == id then some (c, cs) else and_skip c rest

-- The page, and whether the conversation was found in it.
unfoldable pub apply_conversation_bumped_activity :
    ConversationPage → String → ℕ → ConversationPage × Bool
unfolding find_row
apply_conversation_bumped_activity page conversation_id updated_at =
    elim (find_row conversation_id page.items) [
      | none ↦ (page, false)
      | some found ↦ (
        record page {
          items =
              sort_conversations_newest_first
                (record found.0 { updated_at = updated_at } ∷ found.1);
        },
        true,
      )
    ]
