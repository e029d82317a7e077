-- ===== src/Api/Mongo/Table.antt =====
-- A database whose collections are functions of the key: the interface of Api/Mongo at work.
use messaging_system.Common.{
  ◌≡◌, ◌≢◌, refl, ap, sym, ◌∙◌, String, Bool, true, false, Option, none, some, if◌then◌else◌, ◌==◌,
  ◌&&◌, arith, eq_iff, eq_refl, inl, inr, Option-cases,
}
use messaging_system.Api.Documents.{MessageDocument, ConversationDocument, UserDocument}
use messaging_system.Api.Mongo.{Collection, IsLawful, Database, IsLawfulDatabase, read_key}

some-injective {ℓ} : {A : Type ℓ} {a b : A} → some a ≡ some b → a ≡ b
some-injective e = ground arith

module _ {Key : Type 0} {Doc : Type 0} (same : Key → Key → Bool) (key : Doc → Key) where
  -- Documents by key; an upsert of a present document counts as a modification.
  abbrev by_key : Collection Key Doc
  by_key = record {
    State = Key → Option Doc;
    find_one = λ k s. s k;
    update_one =
        λ k f s j. if same k j then elim (s j) [ none ↦ none | some d ↦ some (f d) ] else s j;
    insert_one = λ d s. elim (s (key d)) [
      | some _ ↦ none
      | none ↦ some (λ j. if same (key d) j then some d else s j)
    ];
    upsert_one = λ k f s j. if same k j then some (f (s j)) else s j;
    upserted_count = λ k f s. elim (s k) [ none ↦ 1 | some _ ↦ 0 ];
    modified_count = λ k f s. elim (s k) [ none ↦ 0 | some _ ↦ 1 ];
  }

  insert-finds :
      ((k : Key) → same k k ≡ true)
      → (d : Doc) (s t : Key → Option Doc) → by_key.insert_one d s ≡ some t
      → t (key d) ≡ some d
  insert-finds e_refl d s t = elim (Option-cases (s (key d))) [
    | inr (x, e) ↦ rw e (λ h. ground arith)
    | inl e ↦ rw e (λ h.
        ap (λ (f : Key → Option Doc). f (key d)) (sym (some-injective h))
        ∙ rw (e_refl (key d)) refl)
  ]

  by_key-IsLawful :
      ((k : Key) → same k k ≡ true) → ((j k : Key) → j ≢ k → same k j ≡ false) → IsLawful key by_key
  by_key-IsLawful e_refl e_ne = record {
    find-insert = insert-finds e_refl;
    find-update = λ k f s d _ e. rw (e_refl k, e) refl;
    find-update_other = λ j k f s _ h. rw (e_ne j k h) refl;
    find-upsert = λ k f s _ _. rw (e_refl k) refl;
    upserted = λ k f s e. rw e refl;
    modified = λ k f s d e _. rw e refl;
  }

abbrev pub both : String × String → String × String → Bool
both k j = k.0 == j.0 && k.1 == j.1

both-differ : (j k : String × String) → j ≢ k → both k j ≡ false
both-differ (a, b) (c, d) h = ground (arith, eq_iff c a, eq_iff d b)

abbrev same_id : String → String → Bool
same_id k j = k == j

same_id-differ : (j k : String) → j ≢ k → same_id k j ≡ false
same_id-differ j k h = ground (arith, eq_iff k j)

abbrev pub table : Database
table = record {
  messages = by_key same_id (λ (d : MessageDocument). d.id);
  conversations = by_key same_id (λ (d : ConversationDocument). d.id);
  reads = by_key both read_key;
  users = by_key same_id (λ (d : UserDocument). d.id);
  find_direct = λ pair s. elim (s "c") [
    | none ↦ none
    | some d ↦ if d.direct_pair_key == pair then some d else none
  ];
}

pub table-IsLawful : IsLawfulDatabase table
table-IsLawful = record {
  messages = by_key-IsLawful same_id (λ (d : MessageDocument). d.id) eq_refl same_id-differ;
  reads = by_key-IsLawful both read_key (λ k. ground (arith, eq_refl k.0, eq_refl k.1)) both-differ;
}

-- A user with a verified address and no names.
abbrev pub user_of : String → Bool → UserDocument
user_of id is_guest = record {
  id = id;
  is_guest = is_guest;
  email_verified = true;
  refresh_token_version = none;
  display_name = none;
  username = none;
}

pub table_users-IsLawful : IsLawful (λ (d : UserDocument). d.id) table.users
table_users-IsLawful = by_key-IsLawful same_id (λ (d : UserDocument). d.id) eq_refl same_id-differ
