-- ===== src/Api/RateLimit/Keys.antt =====
-- The keys of different kinds of counters are different.
use Prim.Native.Char.{Char, code}
use Prim.Native.String
use Prim.Native.String.{◌∷◌}
use text.Mathlib.TextLemmas.{append_cancel_left, cons-append, head-eq_of_cons-eq}
use messaging_system.Common.{
  ◌≡◌, ◌≢◌, sym, ap, ◌∙◌, inl, inr, String, false, ◌==◌, arith, eq_iff, Bool-cases,
}

pub eq-false : (s t : String) → s ≢ t → (s == t) ≡ false
eq-false s t h = elim (Bool-cases (s == t)) [ inl e ↦ absurd (h ((eq_iff s t).0 e)) | inr e ↦ e ]

-- Behind a common prefix, texts that begin with different characters differ.
pub heads_apart :
    (k : String) (c d : Char) (s t x y : String)
    → code c ≢ code d
    → (String.◌++◌ k (String.◌++◌ (c ∷ s) x) == String.◌++◌ k (String.◌++◌ (d ∷ t) y)) ≡ false
heads_apart k c d s t x y h =
    eq-false (String.◌++◌ k (String.◌++◌ (c ∷ s) x)) (String.◌++◌ k (String.◌++◌ (d ∷ t) y)) λ e.
      h (
        ap code (
          head-eq_of_cons-eq (
            sym (cons-append c s x)
            ∙ append_cancel_left k (String.◌++◌ (c ∷ s) x) (String.◌++◌ (d ∷ t) y) e
            ∙ cons-append d t y)))

-- A common prefix and segment do not tell two ids apart.
pub append-eq :
    (k g x y : String)
    → (String.◌++◌ k (String.◌++◌ g x) == String.◌++◌ k (String.◌++◌ g y)) ≡ (x == y)
append-eq k g x y = ground (
  arith,
  eq_iff x y,
  eq_iff (String.◌++◌ k (String.◌++◌ g x)) (String.◌++◌ k (String.◌++◌ g y)),
  append_cancel_left g x y,
  append_cancel_left k (String.◌++◌ g x) (String.◌++◌ g y),
)
