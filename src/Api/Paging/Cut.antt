-- ===== src/Api/Paging/Cut.antt =====
-- The cut of a page out of a query's first rows.
use messaging_system.Common.{
  ◌≡◌, refl, ap, ℕ, zero, suc, ◌+◌, ◌≤◌, ◌<◌, true, false, some, List, [], ◌∷◌, arith, length,
}
use messaging_system.Api.Paging.{cut}
use messaging_system.Api.Paging.Keyset.{take, last}

pub last-take :
    {Doc : Type 0} (n : ℕ) (xs : List Doc)
    → 1 ≤ n
    → 1 ≤ length xs
    → (e : Doc) × (last (take n xs) ≡ some e)
unfolding last take
last-take zero xs p q = absurd (omega arith)
last-take (suc n) [] p q = absurd (omega arith)
last-take (suc zero) (x ∷ xs) p q = (x, refl)
last-take (suc (suc n)) (x ∷ []) p q = (x, refl)
last-take (suc (suc n)) (x ∷ y ∷ ys) p q = last-take (suc n) (y ∷ ys) (omega arith) (omega arith)

take_all : {Doc : Type 0} (n : ℕ) (xs : List Doc) → length xs ≤ n → take n xs ≡ xs
unfolding take
take_all zero [] h = refl
take_all zero (x ∷ xs) h = absurd (omega arith)
take_all (suc n) [] h = refl
take_all (suc n) (x ∷ xs) h = ap (λ ys. x ∷ ys) (take_all n xs (omega arith))

take-take : {Doc : Type 0} (n m : ℕ) (xs : List Doc) → n ≤ m → take n (take m xs) ≡ take n xs
unfolding take
take-take zero m xs h = refl
take-take (suc n) zero xs h = absurd (omega arith)
take-take (suc n) (suc m) [] h = refl
take-take (suc n) (suc m) (x ∷ xs) h = ap (λ ys. x ∷ ys) (take-take n m xs (omega arith))

length-take_long : {Doc : Type 0} (m : ℕ) (xs : List Doc) → m ≤ length xs → length (take m xs) ≡ m
unfolding take
length-take_long zero xs h = refl
length-take_long (suc m) [] h = absurd (omega arith)
length-take_long (suc m) (x ∷ xs) h = omega (arith, length-take_long m xs (omega arith))

pub cut_short :
    {Doc : Type 0} (n : ℕ) (xs : List Doc) → length xs ≤ n → cut n (take (n + 1) xs) ≡ (xs, false)
cut_short n xs h = rw (take_all (n + 1) xs (omega arith)) (ground (arith, h))

pub cut_long :
    {Doc : Type 0} (n : ℕ) (xs : List Doc)
    → n < length xs
    → cut n (take (n + 1) xs) ≡ (take n xs, true)
cut_long n xs h =
    rw (length-take_long (n + 1) xs (omega arith), take-take n (n + 1) xs (omega arith))
      (ground arith)
