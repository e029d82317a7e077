-- ===== src/Api/Paging/Walk.antt =====
-- A client that follows `nextCursor` until there is none, over any list handler.
use mathlib.Core.List.{append-nil}
use messaging_system.Common.{
  ◌≡◌, refl, ℕ, zero, suc, ◌≤◌, ◌<◌, String, true, false, Option, none, some, List, [], ◌∷◌, ◌++◌,
  map, arith, All, length, inl, inr, ◌∙◌, ap, ◌⊎◌,
}
use messaging_system.Api.Paging.{Page}
use messaging_system.Api.Paging.Keyset.{take, drop}
use messaging_system.Api.Service.{Outcome, ok, failed}

module _ {ℓ} {A : Type ℓ} where
  abbrev pub concat : List (List A) → List A
  concat [] = []
  concat (xs ∷ xss) = xs ++ concat xss

  and_page : List A → Option (List (List A)) → Option (List (List A))
  and_page items none = none
  and_page items (some pages) = some (items ∷ pages)

  -- The pages that a client reads; `none` when a request fails or the fuel runs out.
  pub walk : (Option String → Outcome (Page A)) → ℕ → Option String → Option (List (List A))
  unfolding and_page
  walk get zero cursor = none
  walk get (suc n) cursor = elim (get cursor) [
    | failed e ↦ none
    | ok page ↦ elim page.next_cursor [
      | none ↦ some (page.items ∷ [])
      | some c ↦ and_page page.items (walk get n (some c))
    ]
  ]

-- A request whose cursor stands before `rows` answers their first page, and hands out a cursor
-- behind it when there are more.
abbrev pub Serves {ℓ} :
    {A : Type ℓ} {Doc : Type 0}
    → (Option String → Outcome (Page A))
    → (Doc → A)
    → ℕ
    → (Option String → List Doc → Type 0)
    → Type ℓ
Serves {A} {Doc} get to_api page_cap At =
    (cursor : Option String) (rows : List Doc)
    → At cursor rows
    → ((length rows ≤ page_cap)
        × (get cursor
            ≡ ok (record { items = map to_api rows; next_cursor = none; has_more = false })))
      ⊎ ((c : String) × (page_cap < length rows)
          × (get cursor
              ≡ ok (record {
                items = map to_api (take page_cap rows);
                next_cursor = some c;
                has_more = true;
              }))
          × At (some c) (drop page_cap rows))

length-take : {Doc : Type 0} (n : ℕ) (xs : List Doc) → length (take n xs) ≤ n
unfolding take
length-take zero xs = omega arith
length-take (suc n) [] = omega arith
length-take (suc n) (x ∷ xs) = omega (arith, length-take n xs)

length-drop_long :
    {Doc : Type 0} (n : ℕ) (xs : List Doc) → 1 ≤ n → n < length xs → length (drop n xs) < length xs
unfolding drop
length-drop_long zero xs p q = absurd (omega arith)
length-drop_long (suc n) [] p q = absurd (omega arith)
length-drop_long (suc zero) (x ∷ xs) p q = omega arith
length-drop_long (suc (suc n)) (x ∷ xs) p q =
    omega (arith, length-drop_long (suc n) xs (omega arith) (omega arith))

module _ {ℓ} {A : Type ℓ} {Doc : Type 0} where
  map-take-drop :
      (f : Doc → A) (n : ℕ) (xs : List Doc) → map f (take n xs) ++ map f (drop n xs) ≡ map f xs
  unfolding take drop
  map-take-drop f zero xs = refl
  map-take-drop f (suc n) [] = refl
  map-take-drop f (suc n) (x ∷ xs) = ap (λ ys. f x ∷ ys) (map-take-drop f n xs)

  length-map : (f : Doc → A) (xs : List Doc) → length (map f xs) ≡ length xs
  length-map f [] = refl
  length-map f (x ∷ xs) = omega (arith, length-map f xs)

  -- Enough fuel for the rows gives every row once, in order, in pages within the page_cap.
  pub walk_lem :
      (get : Option String → Outcome (Page A)) (to_api : Doc → A) (page_cap : ℕ)
      (At : Option String → List Doc → Type 0)
      → 1 ≤ page_cap
      → Serves get to_api page_cap At
      → (fuel : ℕ) (cursor : Option String) (rows : List Doc) → At cursor rows
      → length rows < fuel
      → (pages : List (List A)) × (walk get fuel cursor ≡ some pages)
        × (concat pages ≡ map to_api rows)
        × All (λ items. length items ≤ page_cap) pages
  unfolding walk and_page
  walk_lem get to_api page_cap At p serves zero cursor rows at h = absurd (omega arith)
  walk_lem get to_api page_cap At p serves (suc n) cursor rows at h = elim (serves cursor rows at) [
    | inl (short, e) ↦ (
      map to_api rows ∷ [],
      rw (walk, e) refl,
      append-nil (map to_api rows),
      (omega (arith, length-map to_api rows), tt),
    )
    | inr (c, long, e, at') ↦
        let (pages, walked, all, within) =
          walk_lem get to_api page_cap At p serves n (some c) (drop page_cap rows) at'
            (omega (arith, length-drop_long page_cap rows p long)) in
        (
          map to_api (take page_cap rows) ∷ pages,
          rw (walk, e, walked) refl,
          ap (λ ys. map to_api (take page_cap rows) ++ ys) all ∙ map-take-drop to_api page_cap rows,
          (
            omega (arith, length-map to_api (take page_cap rows), length-take page_cap rows),
            within,
          ),
        )
  ]
