-- ===== src/Common/Lists.antt =====
-- Lists of ids: membership as a Boolean, distinctness, search, replacement and deduplication.
use Prim.Native.Nat.{ℕ, zero, suc, ◌+◌}
use Prim.Native.String.{String}
use mathlib.Core.Path.{◌≡◌, refl}
use mathlib.Core.Logic.{inl, inr}
use mathlib.Core.Bool.{Bool, true, false, not, ◌&&◌, ◌||◌}
use mathlib.Core.Option.{Option, none, some}
use mathlib.Core.List.{List, [], ◌∷◌, ◌++◌}
use native.Mathlib.Omega.{arith}
use text.Mathlib.TextEquality.{eq_iff}
use messaging_system.Common.Tests.{◌==◌, if◌then◌else◌, Bool-cases}

module _ {ℓ} {A : Type ℓ} where
  abbrev pub length : List A → ℕ
  length [] = 0
  length (x ∷ xs) = suc (length xs)

  abbrev pub is_nil : List A → Bool
  is_nil [] = true
  is_nil (_ ∷ _) = false

  -- `a[i] = v` within bounds
  abbrev pub set : List A → ℕ → A → List A
  set [] i v = []
  set (x ∷ xs) zero v = v ∷ xs
  set (x ∷ xs) (suc i) v = x ∷ set xs i v

  pub length-append : (xs ys : List A) → length (xs ++ ys) ≡ length xs + length ys
  length-append [] ys = omega arith
  length-append (x ∷ xs) ys = omega (arith, length-append xs ys)

module _ {ℓ κ} {A : Type ℓ} (P : A → Type κ) where
  abbrev pub All : List A → Type κ
  All [] = Unit
  All (x ∷ xs) = P x × All xs

-- `ids.includes(x)`
unfoldable pub contains : String → List String → Bool
contains x [] = false
contains x (y ∷ ys) = y == x || contains x ys

abbrev pub IsDistinct : List String → Type 0
IsDistinct [] = Unit
IsDistinct (x ∷ xs) = (contains x xs ≡ false) × IsDistinct xs

-- `ids.filter((id) => id !== x)`
unfoldable pub without : String → List String → List String
without x [] = []
without x (y ∷ ys) = if y == x then without x ys else y ∷ without x ys

-- `ids.indexOf(x)`; `none` is -1
unfoldable pub index_of : String → List String → Option ℕ
index_of x [] = none
index_of x (y ∷ ys) =
    if y == x then some 0 else elim (index_of x ys) [ none ↦ none | some i ↦ some (suc i) ]

-- The first occurrence of `x` becomes `y`.
unfoldable pub replace : String → String → List String → List String
replace x y [] = []
replace x y (z ∷ zs) = if z == x then y ∷ zs else z ∷ replace x y zs

pub contains-append :
    (x : String) (xs ys : List String) → contains x (xs ++ ys) ≡ (contains x xs || contains x ys)
unfolding contains
contains-append x [] ys = refl
contains-append x (z ∷ zs) ys = ground (arith, contains-append x zs ys)

pub IsDistinct-snoc :
    (x : String) (xs : List String)
    → IsDistinct xs
    → contains x xs ≡ false
    → IsDistinct (xs ++ x ∷ [])
unfolding contains
IsDistinct-snoc x [] h e = (refl, tt)
IsDistinct-snoc x (y ∷ ys) h e = (
  ground (arith, contains-append y ys (x ∷ []), eq_iff x y, eq_iff y x),
  IsDistinct-snoc x ys h.1 (ground arith),
)

pub contains-without :
    (x y : String) (xs : List String) → contains y (without x xs) ≡ (contains y xs && not (x == y))
unfolding contains without
contains-without x y [] = refl
contains-without x y (z ∷ zs) =
    ground (arith, contains-without x y zs, eq_iff z x, eq_iff z y, eq_iff x y)

pub IsDistinct-without : (x : String) (xs : List String) → IsDistinct xs → IsDistinct (without x xs)
unfolding without
IsDistinct-without x [] h = tt
IsDistinct-without x (z ∷ zs) h = elim (Bool-cases (z == x)) [
  | inl e ↦ rw e (IsDistinct-without x zs h.1)
  | inr e ↦ rw e (ground (arith, contains-without x z zs), IsDistinct-without x zs h.1)
]

pub without_of_not-contains :
    (x : String) (xs : List String) → contains x xs ≡ false → without x xs ≡ xs
unfolding contains without
without_of_not-contains x [] e = refl
without_of_not-contains x (z ∷ zs) e = ground (arith, without_of_not-contains x zs)

pub index_of-none : (x : String) (xs : List String) → contains x xs ≡ false → index_of x xs ≡ none
unfolding contains index_of
index_of-none x [] e = refl
index_of-none x (z ∷ zs) e = ground (arith, index_of-none x zs)

pub set-index_of :
    (x y : String) (xs : List String) (i : ℕ) → index_of x xs ≡ some i → set xs i y ≡ replace x y xs
unfolding index_of replace
set-index_of x y [] i e = cc
set-index_of x y (z ∷ zs) zero e = ground arith
set-index_of x y (z ∷ zs) (suc i) e = ground (arith, set-index_of x y zs i)

pub contains_of_index_of :
    (x : String) (xs : List String) (i : ℕ) → index_of x xs ≡ some i → contains x xs ≡ true
unfolding contains index_of
contains_of_index_of x [] i e = cc
contains_of_index_of x (z ∷ zs) zero e = ground arith
contains_of_index_of x (z ∷ zs) (suc i) e = ground (arith, contains_of_index_of x zs i)

-- What a replaced list holds, where the replaced id stood once.
pub contains-replace :
    (x y w : String) (xs : List String)
    → IsDistinct xs
    → contains x xs ≡ true
    → contains w (replace x y xs) ≡ (y == w || (contains w xs && not (x == w)))
unfolding contains replace
contains-replace x y w [] h e = cc
contains-replace x y w (z ∷ zs) h e = elim (Bool-cases (z == x)) [
  | inl a ↦ rw a (ground (arith, eq_iff z x, eq_iff x w, eq_iff z w))
  | inr a ↦ rw a (
      ground (arith, contains-replace x y w zs h.1, eq_iff z x, eq_iff x w, eq_iff z w, eq_iff y w))
]

pub IsDistinct-replace :
    (x y : String) (xs : List String)
    → IsDistinct xs
    → contains x xs ≡ true
    → contains y xs ≡ false
    → IsDistinct (replace x y xs)
unfolding contains replace
IsDistinct-replace x y [] h e f = tt
IsDistinct-replace x y (z ∷ zs) h e f = elim (Bool-cases (z == x)) [
  | inl a ↦ rw a (ground arith, h.1)
  | inr a ↦ rw a (
    ground (arith, contains-replace x y z zs h.1, eq_iff z y, eq_iff y z),
    IsDistinct-replace x y zs h.1 (ground arith) (ground arith),
  )
]

pub not-contains_of_index_of-none :
    (x : String) (xs : List String) → index_of x xs ≡ none → contains x xs ≡ false
unfolding contains index_of
not-contains_of_index_of-none x [] e = refl
not-contains_of_index_of-none x (z ∷ zs) e = ground (arith, not-contains_of_index_of-none x zs)

pub contains-head : (x : String) (xs : List String) → contains x (x ∷ xs) ≡ true
unfolding contains
contains-head x xs = ground (arith, eq_iff x x)

pub contains-tail :
    (x y : String) (xs : List String) → contains x xs ≡ true → contains x (y ∷ xs) ≡ true
unfolding contains
contains-tail x y xs h = ground arith
