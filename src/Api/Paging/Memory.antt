-- ===== src/Api/Paging/Memory.antt =====
-- Queries that sort what a few keys hold, and a cursor coding: the parameters of paging at work.
use Prim.Native.Char.{Char, code}
use Prim.Native.String.{[], ◌∷◌}
use messaging_system.Common.{
  ◌≡◌, refl, ap, sym, ℕ, zero, suc, String, true, Option, none, some, List, nat_eq, if◌then◌else◌,
  All, Bool-cases, inl, inr, wrap, unwrap, unwrap-wrap, trim-wrap, is_empty-wrap,
}
use messaging_system.Api.Mongo.Table.{table}
use messaging_system.Api.Paging.Cursor.{Codec, IsLawful, Parsed, object}
use messaging_system.Api.Paging.Find.{Queries, IsLawfulQueries, message_key, conversation_key}
use messaging_system.Api.Paging.Keyset.{filter, is_older, is_older_trans, IsNewestFirst}
use mathlib.Core.Path.{subst}

module _ {A : Type 0} (key : A → ℕ × String) where
  -- Newest first; a document with a key that is there already is left out.
  unfoldable pub insert : A → List A → List A
  insert a List.[] = List.◌∷◌ a List.[]
  insert a (List.◌∷◌ x xs) =
      let rest = insert a xs in
      if is_older (key x) (key a)
      then List.◌∷◌ x rest
      else if is_older (key a) (key x)
      then List.◌∷◌ a (List.◌∷◌ x xs)
      else List.◌∷◌ x xs

  All-insert : (P : A → Type 0) (a : A) (xs : List A) → P a → All P xs → All P (insert a xs)
  unfolding insert
  All-insert P a List.[] p h = (p, tt)
  All-insert P a (List.◌∷◌ x xs) p h = elim (Bool-cases (is_older (key x) (key a))) [
    | inl e ↦ rw e (h.0, All-insert P a xs p h.1)
    | inr e ↦ elim (Bool-cases (is_older (key a) (key x))) [
      | inl f ↦ rw (e, f) (p, h)
      | inr f ↦ rw (e, f) h
    ]
  ]

  older-All :
      (a b : ℕ × String) (xs : List A)
      → is_older a b ≡ true
      → All (λ y. is_older b (key y) ≡ true) xs
      → All (λ y. is_older a (key y) ≡ true) xs
  older-All a b List.[] e h = tt
  older-All a b (List.◌∷◌ x xs) e h = (is_older_trans a b (key x) e h.0, older-All a b xs e h.1)

  insert-IsNewestFirst :
      (a : A) (xs : List A) → IsNewestFirst key xs → IsNewestFirst key (insert a xs)
  unfolding insert
  insert-IsNewestFirst a List.[] h = (tt, tt)
  insert-IsNewestFirst a (List.◌∷◌ x xs) h = elim (Bool-cases (is_older (key x) (key a))) [
    | inl e ↦ rw e (
      All-insert (λ y. is_older (key x) (key y) ≡ true) a xs e h.0,
      insert-IsNewestFirst a xs h.1,
    )
    | inr e ↦ elim (Bool-cases (is_older (key a) (key x))) [
      | inl f ↦ rw (e, f) ((f, older-All (key a) (key x) xs f h.0), h)
      | inr f ↦ rw (e, f) h
    ]
  ]

  unfoldable pub sort_found : List String → (String → Option A) → List A
  sort_found List.[] s = List.[]
  sort_found (List.◌∷◌ k ks) s =
      let rest = sort_found ks s in elim (s k) [ none ↦ rest | some a ↦ insert a rest ]

  insert_found-IsNewestFirst :
      (o : Option A) (xs : List A)
      → IsNewestFirst key xs
      → IsNewestFirst key (elim o [ none ↦ xs | some a ↦ insert a xs ])
  insert_found-IsNewestFirst none xs h = h
  insert_found-IsNewestFirst (some a) xs h = insert-IsNewestFirst a xs h

  sort_found-IsNewestFirst :
      (ks : List String) (s : String → Option A) → IsNewestFirst key (sort_found ks s)
  unfolding sort_found
  sort_found-IsNewestFirst List.[] s = tt
  sort_found-IsNewestFirst (List.◌∷◌ k ks) s =
      insert_found-IsNewestFirst (s k) (sort_found ks s) (sort_found-IsNewestFirst ks s)

filter-true : {A : Type 0} (xs : List A) → filter (λ _. true) xs ≡ xs
unfolding filter
filter-true List.[] = refl
filter-true (List.◌∷◌ x xs) = ap (List.◌∷◌ x) (filter-true xs)

-- Queries on the tables, over the ids that the tests use.
abbrev message_ids : List String
message_ids = List.◌∷◌ "m1" (List.◌∷◌ "m2" (List.◌∷◌ "m3" List.[]))

abbrev conversation_ids : List String
conversation_ids = List.◌∷◌ "c1" (List.◌∷◌ "c2" List.[])

abbrev pub table_queries : Queries table
table_queries = record {
  find_messages = λ p s. filter p (sort_found message_key message_ids s);
  find_conversations = λ p s. filter p (sort_found conversation_key conversation_ids s);
}

pub table_queries-IsLawful : IsLawfulQueries table table_queries
table_queries-IsLawful = record {
  messages-filter = λ p s. ap (filter p) (sym (filter-true (sort_found message_key message_ids s)));
  messages-IsNewestFirst = λ s.
      subst (IsNewestFirst message_key) (sym (filter-true (sort_found message_key message_ids s)))
        (sort_found-IsNewestFirst message_key message_ids s);
  conversations-filter =
      λ p s. ap (filter p) (sym (filter-true (sort_found conversation_key conversation_ids s)));
  conversations-IsNewestFirst = λ s.
      subst (IsNewestFirst conversation_key)
        (sym (filter-true (sort_found conversation_key conversation_ids s)))
        (sort_found-IsNewestFirst conversation_key conversation_ids s);
}

-- A date in unary, and a text with the id behind a comma.
unfoldable pub unary : ℕ → String
unary zero = []
unary (suc n) = "x" ∷ unary n

unfoldable pub count_unary : String → Option ℕ
count_unary [] = some 0
count_unary (c ∷ s) = elim (count_unary s) [ none ↦ none | some n ↦ some (suc n) ]

unfoldable pub join : String → String → String
join [] id = "," ∷ id
join (c ∷ t) id = c ∷ join t id

and_char : Char → Option Parsed → Option Parsed
and_char c (some (object (some t) id)) = some (object (some (c ∷ t)) id)
and_char c o = none

unfoldable pub split : String → Option Parsed
unfolding and_char
split [] = none
split (c ∷ s) =
    let rest = split s in
    if nat_eq (code c) 44 then some (object (some "") (some s)) else and_char c rest

split-join :
    (n : ℕ) (id : String) → split (join (unary n) id) ≡ some (object (some (unary n)) (some id))
unfolding split join unary and_char
split-join zero id = refl
split-join (suc n) id = ap (and_char "x") (split-join n id)

count_unary-unary : (n : ℕ) → count_unary (unary n) ≡ some n
unfolding count_unary unary
count_unary-unary zero = refl
count_unary-unary (suc n) = rw (count_unary-unary n) refl

abbrev pub plain_codec : Codec
plain_codec = record {
  stringify = join;
  parse_json = split;
  to_base64url = wrap;
  from_base64url = unwrap;
  to_iso_string = unary;
  parse_date = count_unary;
}

pub plain_codec-IsLawful : IsLawful plain_codec
plain_codec-IsLawful = record {
  from-to = unwrap-wrap;
  trim-to = trim-wrap;
  to-nonempty = λ t id. is_empty-wrap (join t id);
  parse-stringify = split-join;
  parse-iso = count_unary-unary;
}
