-- ===== src/Web/ConversationList/Tests.antt =====
-- Two conversations, of which the older one is bumped.
use messaging_system.Common.{◌≡◌, refl, ℕ, String, true, false, none, some, List, [], ◌∷◌, arith}
use messaging_system.Web.ConversationList.{
  Conversation, ConversationPage, apply_conversation_bumped_activity,
  sort_conversations_newest_first,
}
use messaging_system.Web.ConversationList.Laws.{
  IsNewestFirst, rows_of, apply_conversation_bumped_activity-IsNewestFirst,
}

abbrev conversation_at : String → ℕ → Conversation
conversation_at id at = record {
  id = id;
  title = none;
  is_group = some false;
  peer_user_id = none;
  member_ids = none;
  updated_at = at;
}

abbrev two : ConversationPage
two = record {
  items = conversation_at "c1" 9 ∷ conversation_at "c2" 4 ∷ [];
  next_cursor = none;
  has_more = some false;
}

apply_conversation_bumped_activity-IsNewestFirst_example :
    let bumped = apply_conversation_bumped_activity two "c2" 9 in
    (bumped.1 ≡ true)
    × IsNewestFirst bumped.0.items
    × ((k : String) → rows_of k bumped.0.items ≡ rows_of k two.items)
    × ((row : Conversation) × (rest : List Conversation) × (bumped.0.items ≡ row ∷ rest)
        × (row.id ≡ "c2")
        × (row.updated_at ≡ 9))
apply_conversation_bumped_activity-IsNewestFirst_example =
    apply_conversation_bumped_activity-IsNewestFirst two "c2" 9 (omega arith)
      (omega arith, (omega arith, tt))

the_bumped_one_is_on_top :
    (apply_conversation_bumped_activity two "c2" 9).0.items
    ≡ conversation_at "c2" 9 ∷ conversation_at "c1" 9 ∷ []
unfolding apply_conversation_bumped_activity sort_conversations_newest_first
the_bumped_one_is_on_top = refl
