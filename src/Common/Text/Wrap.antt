-- ===== src/Common/Text/Wrap.antt =====
-- A text between two letters: `trim` leaves it, and it can be taken off again.
use Prim.Native.String.{String, [], ◌∷◌}
use mathlib.Core.Path.{◌≡◌, refl, ap}
use mathlib.Core.Bool.{false}
use messaging_system.Common.Text.{is_empty, trim, trim_start, trim_end, keep, is_space}

unfoldable pub closed : String → String
closed [] = "b"
closed (c ∷ s) = c ∷ closed s

unfoldable pub wrap : String → String
wrap s = "b" ∷ closed s

init : String → String
init [] = []
init (c ∷ []) = []
init (c ∷ d ∷ s) = c ∷ init (d ∷ s)

unfoldable pub unwrap : String → String
unfolding init
unwrap [] = []
unwrap (c ∷ s) = init s

init-closed : (s : String) → init (closed s) ≡ s
unfolding init closed
init-closed [] = refl
init-closed (c ∷ []) = refl
init-closed (c ∷ d ∷ s) = ap (λ t. c ∷ t) (init-closed (d ∷ s))

pub unwrap-wrap : (s : String) → unwrap (wrap s) ≡ s
unfolding wrap unwrap
unwrap-wrap s = init-closed s

trim_end-closed : (s : String) → trim_end (closed s) ≡ closed s
unfolding trim_end closed keep is_space
trim_end-closed [] = refl
trim_end-closed (c ∷ []) = refl
trim_end-closed (c ∷ d ∷ s) = ap (keep c) (trim_end-closed (d ∷ s))

pub trim-wrap : (s : String) → trim (wrap s) ≡ wrap s
unfolding trim wrap trim_start is_space trim_end keep closed
trim-wrap [] = refl
trim-wrap (c ∷ s) = ap (keep "b") (trim_end-closed (c ∷ s))

pub is_empty-wrap : (s : String) → is_empty (wrap s) ≡ false
unfolding wrap
is_empty-wrap s = refl
