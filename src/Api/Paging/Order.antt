-- ===== src/Api/Paging/Order.antt =====
-- Texts in the order of `$lt`: it is transitive and irreflexive.
use Prim.Native.Nat.{Ordering}
use Prim.Native.String
use Prim.Native.String.{[], ◌∷◌}
use text.Mathlib.TextPositions.{compare_refl}
use messaging_system.Common.{◌≡◌, String, Bool, true, false, arith}

abbrev pub text_lt : String → String → Bool
text_lt s t = elim (String.compare s t) [ Ordering.lt ↦ true | _ ↦ false ]

pub text_lt_trans : (s t u : String) → text_lt s t ≡ true → text_lt t u ≡ true → text_lt s u ≡ true
text_lt_trans [] [] u p q = cc
text_lt_trans [] (d ∷ t) [] p q = ground (arith, String.compare.cons-nil d t)
text_lt_trans [] (d ∷ t) (e ∷ u) p q = ground (arith, String.compare.nil-cons e u)
text_lt_trans (c ∷ s) [] u p q = ground (arith, String.compare.cons-nil c s)
text_lt_trans (c ∷ s) (d ∷ t) [] p q = ground (arith, String.compare.cons-nil d t)
text_lt_trans (c ∷ s) (d ∷ t) (e ∷ u) p q = ground (
  arith,
  String.compare.cons-cons c d s t,
  String.compare.cons-cons d e t u,
  String.compare.cons-cons c e s u,
  text_lt_trans s t u,
)

pub text_lt_irrefl : (s : String) → text_lt s s ≡ false
text_lt_irrefl s = ground (arith, compare_refl s)
