-- ===== src/Api/Paging/Serving.antt =====
-- A list handler that answers pages from a cursor on serves a walk.
use mathlib.Core.Path.{subst}
use messaging_system.Common.{
  sym, ◌≡◌, ap, ◌∙◌, inl, inr, ℕ, ◌+◌, ◌≤◌, String, Bool, true, false, Option, none, some, List,
  map, ltb, trim, is_empty, arith, All, length, Bool-cases,
}
use messaging_system.Api.Paging.{Page, cut, next_of, cursor_boundary}
use messaging_system.Api.Paging.Cut.{last-take, cut_short, cut_long}
use messaging_system.Api.Paging.Keyset.{
  take, drop, last, rest_after, rest_after-next, IsNewestFirst, All-last, All-rest_after,
}
use messaging_system.Api.Paging.Walk.{Serves}
use messaging_system.Api.Service.{Outcome, ok}

-- An id that a cursor brings back: not blank, and without white space around it.
abbrev pub IsPlainId : String → Type 0
IsPlainId id = (trim id ≡ id) × (is_empty id ≡ false)

-- The key that a cursor stands for.
abbrev pub boundary_key : {C : Type 0} → (C → ℕ × String) → Option C → Option (ℕ × String)
boundary_key key_of none = none
boundary_key key_of (some c) = some (key_of c)

-- The cursor parses, and `rest` is what lies behind it.
abbrev pub At :
    {Doc : Type 0} {C : Type 0}
    → (Doc → ℕ × String)
    → (C → ℕ × String)
    → (String → Outcome C)
    → List Doc
    → Option String
    → List Doc
    → Type 0
At {C} key key_of parse rows cursor rest =
    (b : Option C) × (cursor_boundary parse cursor ≡ ok b)
    × (rest ≡ rest_after key (boundary_key key_of b) rows)

-- What a handler answers for a page.
abbrev pub render :
    {A : Type 0} {Doc : Type 0} → (Doc → A) → (Doc → String) → List Doc × Bool → Outcome (Page A)
render to_api encode page =
    ok (record { items = map to_api page.0; next_cursor = next_of encode page; has_more = page.1 })

render_more :
    {A : Type 0} {Doc : Type 0} (to_api : Doc → A) (encode : Doc → String) (docs : List Doc)
    (e : Doc)
    → last docs ≡ some e
    → render to_api encode (docs, true)
      ≡ ok (record { items = map to_api docs; next_cursor = some (encode e); has_more = true })
render_more to_api encode docs e found =
    ap
      (λ o. ok (record {
        items = map to_api docs;
        next_cursor = elim o [ none ↦ none | some item ↦ some (encode item) ];
        has_more = true;
      }))
      found

-- A list handler: it reads a cursor, and answers a page of what lies behind it. Each row that it
-- hands out has a cursor that reads back as the row's key.
module _ {A : Type 0} {Doc : Type 0} {C : Type 0} (key : Doc → ℕ × String) (to_api : Doc → A)
    (key_of : C → ℕ × String) (parse : String → Outcome C) (encode : Doc → String)
    (Good : Doc → Type 0)
    (reads : (d : Doc)
      → Good d
      → (c : C) × (cursor_boundary parse (some (encode d)) ≡ ok (some c)) × (key_of c ≡ key d))
    (size : ℕ) (rows : List Doc) (sorted : IsNewestFirst key rows) (good : All Good rows)
    (get : Option String → Outcome (Page A)) where
  following :
      (b : Option C) (rest : List Doc) (c : C) (e : Doc)
      → rest ≡ rest_after key (boundary_key key_of b) rows
      → last (take size rest) ≡ some e
      → key_of c ≡ key e
      → drop size rest ≡ rest_after key (boundary_key key_of (some c)) rows
  following b rest c e behind found same =
      let found' = subst (λ r. last (take size r) ≡ some e) behind found in
      ap (drop size) behind
      ∙ sym (rest_after-next key (boundary_key key_of b) size rows e sorted found')
      ∙ ap (λ k. rest_after key (some k) rows) (sym same)

  pub Serves_lem :
      1 ≤ size
      → ((cursor : Option String) (b : Option C)
          → cursor_boundary parse cursor ≡ ok b
          → get cursor
            ≡ render to_api encode
                (cut size (take (size + 1) (rest_after key (boundary_key key_of b) rows))))
      → Serves get to_api size (At key key_of parse rows)
  Serves_lem p answers cursor rest (b, parsed, behind) =
      let cut_of : List Doc → List Doc × Bool = λ r. cut size (take (size + 1) r) in
      let answer = answers cursor b parsed ∙ ap (render to_api encode) (ap cut_of (sym behind)) in
      elim (Bool-cases (ltb size (length rest))) [
        | inr short ↦ inl (
          ground (arith, short),
          answer ∙ ap (render to_api encode) (cut_short size rest (ground (arith, short))),
        )
        | inl long ↦
            let (e, found) = last-take size rest p (ground (arith, long)) in
            let held = All-rest_after key Good (boundary_key key_of b) rows good in
            let (c, back, same) =
              reads e (All-last Good size rest e (subst (All Good) (sym behind) held) found) in
            inr (
              encode e,
              ground (arith, long),
              answer
                  ∙ ap (render to_api encode) (cut_long size rest (ground (arith, long)))
                  ∙ render_more to_api encode (take size rest) e found,
              (some c, back, following b rest c e behind found same),
            )
      ]
