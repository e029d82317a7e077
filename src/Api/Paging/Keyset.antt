-- ===== src/Api/Paging/Keyset.antt =====
-- Keyset order: newest first by date and id, and what lies behind a boundary of a sorted list.
use mathlib.Core.Path.{subst}
use messaging_system.Common.{
  ◌≡◌, refl, ◌∙◌, ℕ, zero, suc, String, Bool, true, false, Option, none, some, List, [], ◌∷◌, ◌&&◌,
  ◌||◌, ltb, nat_eq, if◌then◌else◌, arith, All, Bool-cases, inl, inr,
}
use messaging_system.Api.Paging.Order.{text_lt, text_lt_trans, text_lt_irrefl}

-- `{ $lt: t }`, or the same date and a smaller id
abbrev pub is_older : ℕ × String → ℕ × String → Bool
is_older cursor key = ltb key.0 cursor.0 || (nat_eq key.0 cursor.0 && text_lt key.1 cursor.1)

pub is_older_trans :
    (a b c : ℕ × String) → is_older a b ≡ true → is_older b c ≡ true → is_older a c ≡ true
is_older_trans a b c p q = ground (arith, text_lt_trans c.1 b.1 a.1)

pub is_older_irrefl : (a : ℕ × String) → is_older a a ≡ false
is_older_irrefl a = ground (arith, text_lt_irrefl a.1)

pub is_older_asym : (a b : ℕ × String) → is_older a b ≡ true → is_older b a ≡ false
is_older_asym a b p = ground (arith, is_older_trans a b a p, is_older_irrefl a)

module _ {ℓ} {A : Type ℓ} where
  unfoldable pub filter : (A → Bool) → List A → List A
  filter p [] = []
  filter p (x ∷ xs) = let rest = filter p xs in if p x then x ∷ rest else rest

  -- `slice(0, n)`
  unfoldable pub take : ℕ → List A → List A
  take zero xs = []
  take (suc n) [] = []
  take (suc n) (x ∷ xs) = x ∷ take n xs

  unfoldable pub drop : ℕ → List A → List A
  drop zero xs = xs
  drop (suc n) [] = []
  drop (suc n) (x ∷ xs) = drop n xs

  -- `items[items.length - 1]`
  unfoldable pub last : List A → Option A
  last [] = none
  last (x ∷ []) = some x
  last (x ∷ y ∷ ys) = last (y ∷ ys)

  pub filter-filter :
      (p q : A → Bool) (xs : List A) → filter (λ x. q x && p x) xs ≡ filter p (filter q xs)
  unfolding filter
  filter-filter p q [] = refl
  filter-filter p q (x ∷ xs) = ground (arith, filter-filter p q xs)

  pub filter_same :
      (p q : A → Bool) (xs : List A) → ((x : A) → p x ≡ q x) → filter p xs ≡ filter q xs
  unfolding filter
  filter_same p q [] h = refl
  filter_same p q (x ∷ xs) h = ground (arith, filter_same p q xs h, h x)

  filter-All : (p : A → Bool) (xs : List A) → All (λ x. p x ≡ true) xs → filter p xs ≡ xs
  unfolding filter
  filter-All p [] h = refl
  filter-All p (x ∷ xs) h = ground (arith, filter-All p xs h.1, h.0)

  pub All-filter : (P : A → Type 0) (p : A → Bool) (xs : List A) → All P xs → All P (filter p xs)
  unfolding filter
  All-filter P p [] h = tt
  All-filter P p (x ∷ xs) h = elim (Bool-cases (p x)) [
    | inl e ↦ rw e (h.0, All-filter P p xs h.1)
    | inr e ↦ rw e (All-filter P p xs h.1)
  ]

  pub All-filtered : (p : A → Bool) (xs : List A) → All (λ x. p x ≡ true) (filter p xs)
  unfolding filter
  All-filtered p [] = tt
  All-filtered p (x ∷ xs) = elim (Bool-cases (p x)) [
    | inl e ↦ rw e (e, All-filtered p xs)
    | inr e ↦ rw e (All-filtered p xs)
  ]

  pub All-last :
      (P : A → Type 0) (n : ℕ) (xs : List A) (e : A) → All P xs → last (take n xs) ≡ some e → P e
  unfolding take last
  All-last P zero xs e h q = cc
  All-last P (suc n) [] e h q = cc
  All-last P (suc zero) (x ∷ xs) e h q = subst P (cc) h.0
  All-last P (suc (suc n)) (x ∷ []) e h q = subst P (cc) h.0
  All-last P (suc (suc n)) (x ∷ y ∷ ys) e h q = All-last P (suc n) (y ∷ ys) e h.1 q

module _ {ℓ} {A : Type ℓ} (key : A → ℕ × String) where
  -- Each is strictly older than those before it.
  abbrev pub IsNewestFirst : List A → Type ℓ
  IsNewestFirst [] = Unit
  IsNewestFirst (x ∷ xs) = All (λ y. is_older (key x) (key y) ≡ true) xs × IsNewestFirst xs

  pub IsNewestFirst-filter :
      (p : A → Bool) (xs : List A) → IsNewestFirst xs → IsNewestFirst (filter p xs)
  unfolding filter
  IsNewestFirst-filter p [] h = tt
  IsNewestFirst-filter p (x ∷ xs) h = elim (Bool-cases (p x)) [
    | inl e ↦
        rw e (
          All-filter (λ y. is_older (key x) (key y) ≡ true) p xs h.0,
          IsNewestFirst-filter p xs h.1,
        )
    | inr e ↦ rw e (IsNewestFirst-filter p xs h.1)
  ]

  older_than_head :
      (x : A) (xs : List A)
      → All (λ y. is_older (key x) (key y) ≡ true) xs
      → filter (λ y. is_older (key x) (key y)) (x ∷ xs) ≡ xs
  unfolding filter
  older_than_head x xs h =
      ground (arith, is_older_irrefl (key x), filter-All (λ y. is_older (key x) (key y)) xs h)

  -- What is older than the last of a page is what follows the page.
  older_than_last :
      (n : ℕ) (xs : List A) (e : A)
      → IsNewestFirst xs
      → last (take n xs) ≡ some e
      → filter (λ x. is_older (key e) (key x)) xs ≡ drop n xs
  unfolding filter take drop last
  older_than_last zero xs e h q = cc
  older_than_last (suc n) [] e h q = cc
  older_than_last (suc zero) (x ∷ xs) e h q =
      subst (λ z. filter (λ y. is_older (key z) (key y)) (x ∷ xs) ≡ xs) (cc)
        (older_than_head x xs h.0)
  older_than_last (suc (suc n)) (x ∷ []) e h q =
      subst (λ z. filter (λ y. is_older (key z) (key y)) (x ∷ []) ≡ []) (cc)
        (older_than_head x [] h.0)
  older_than_last (suc (suc n)) (x ∷ y ∷ ys) e h q = ground (
    arith,
    older_than_last (suc n) (y ∷ ys) e h.1 q,
    is_older_asym (key x) (key e)
        (All-last (λ z. is_older (key x) (key z) ≡ true) (suc n) (y ∷ ys) e h.0 q),
  )

  -- The rows behind a boundary.
  abbrev pub rest_after : Option (ℕ × String) → List A → List A
  rest_after none xs = xs
  rest_after (some k) xs = filter (λ x. is_older k (key x)) xs

  pub rest_after-next :
      (boundary : Option (ℕ × String)) (n : ℕ) (xs : List A) (e : A)
      → IsNewestFirst xs
      → last (take n (rest_after boundary xs)) ≡ some e
      → rest_after (some (key e)) xs ≡ drop n (rest_after boundary xs)
  rest_after-next none n xs e h q = older_than_last n xs e h q
  rest_after-next (some k) n xs e h q =
      let older : A → Bool = λ x. is_older k (key x) in
      let held =
        All-last (λ x. is_older k (key x) ≡ true) n (filter older xs) e (All-filtered older xs) q in
      filter_same (λ x. is_older (key e) (key x)) (λ x. older x && is_older (key e) (key x)) xs
        (λ x. ground (arith, is_older_trans k (key e) (key x) held))
      ∙ filter-filter (λ x. is_older (key e) (key x)) older xs
      ∙ older_than_last n (filter older xs) e (IsNewestFirst-filter older xs h) q

  pub All-rest_after :
      (P : A → Type 0) (boundary : Option (ℕ × String)) (xs : List A)
      → All P xs
      → All P (rest_after boundary xs)
  All-rest_after P none xs h = h
  All-rest_after P (some k) xs h = All-filter P (λ x. is_older k (key x)) xs h
