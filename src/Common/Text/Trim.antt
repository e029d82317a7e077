-- ===== src/Common/Text/Trim.antt =====
-- Trimming a trimmed text changes nothing.
use Prim.Native.Char.{Char, code}
use Prim.Native.String.{String, [], ◌∷◌}
use mathlib.Core.Path.{◌≡◌, refl, ap, ◌∙◌}
use mathlib.Core.Logic.{inl, inr}
use mathlib.Core.Bool.{true, false}
use messaging_system.Common.Tests.{Bool-cases}
use mathlib.Core.Option.{Option, none, some}
use messaging_system.Common.Text.{
  trim_or_empty, is_empty, trim, trim_start, trim_end, keep, is_space,
}

-- It does not begin with white space.
abbrev StartsClean : String → Type 0
StartsClean [] = Unit
StartsClean (c ∷ s) = is_space (code c) ≡ false

trim_start-StartsClean : (s : String) → StartsClean (trim_start s)
unfolding trim_start
trim_start-StartsClean [] = tt
trim_start-StartsClean (c ∷ s) = elim (Bool-cases (is_space (code c))) [
  | inl e ↦ rw e (trim_start-StartsClean s)
  | inr e ↦ rw e e
]

trim_start_of_StartsClean : (s : String) → StartsClean s → trim_start s ≡ s
unfolding trim_start
trim_start_of_StartsClean [] h = refl
trim_start_of_StartsClean (c ∷ s) h = rw h refl

keep-StartsClean : (c : Char) (s : String) → is_space (code c) ≡ false → StartsClean (keep c s)
unfolding keep
keep-StartsClean c [] h = rw h h
keep-StartsClean c (d ∷ s) h = h

trim_end-StartsClean : (s : String) → StartsClean s → StartsClean (trim_end s)
unfolding trim_end
trim_end-StartsClean [] h = tt
trim_end-StartsClean (c ∷ s) h = keep-StartsClean c (trim_end s) h

trim_end-keep : (c : Char) (s : String) → trim_end s ≡ s → trim_end (keep c s) ≡ keep c s
unfolding trim_end keep
trim_end-keep c [] h = elim (Bool-cases (is_space (code c))) [
  | inl e ↦ rw e refl
  | inr e ↦ rw e (rw e refl)
]
trim_end-keep c (d ∷ s) h = ap (keep c) h

trim_end-trim_end : (s : String) → trim_end (trim_end s) ≡ trim_end s
unfolding trim_end
trim_end-trim_end [] = refl
trim_end-trim_end (c ∷ s) = trim_end-keep c (trim_end s) (trim_end-trim_end s)

pub trim-trim : (s : String) → trim (trim s) ≡ trim s
unfolding trim
trim-trim s =
    ap trim_end (
      trim_start_of_StartsClean (trim_end (trim_start s))
        (trim_end-StartsClean (trim_start s) (trim_start-StartsClean s)))
    ∙ trim_end-trim_end (trim_start s)

pub is_empty-trim_empty : is_empty (trim "") ≡ true
unfolding trim
is_empty-trim_empty = refl

pub trim-trim_or_empty : (id : Option String) → trim (trim_or_empty id) ≡ trim_or_empty id
unfolding trim
trim-trim_or_empty none = refl
trim-trim_or_empty (some id) = trim-trim id
