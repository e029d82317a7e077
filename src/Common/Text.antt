-- ===== src/Common/Text.antt =====
-- `String.prototype.trim`, `startsWith` and the emptiness test, over the native texts.
pub mod Trim
pub mod Wrap
use Prim.Native.Nat.{ℕ}
use Prim.Native.Char.{Char, code}
use Prim.Native.String.{String, [], ◌∷◌}
use mathlib.Core.Bool.{Bool, true, false, ◌&&◌, ◌||◌}
use mathlib.Core.Option.{Option, none, some}
use messaging_system.Common.Tests.{leb, nat_eq, if◌then◌else◌}

abbrev pub is_empty : String → Bool
is_empty [] = true
is_empty (_ ∷ _) = false

-- The code points that `trim` removes: WhiteSpace and LineTerminator of ECMAScript.
is_space : ℕ → Bool
is_space c =
    (leb 9 c && leb c 13)
    || nat_eq c 0x20
    || nat_eq c 0xa0
    || nat_eq c 0x1680
    || (leb 0x2000 c && leb c 0x200a)
    || nat_eq c 0x2028
    || nat_eq c 0x2029
    || nat_eq c 0x202f
    || nat_eq c 0x205f
    || nat_eq c 0x3000
    || nat_eq c 0xfeff

trim_start : String → String
trim_start [] = []
trim_start (c ∷ s) = let rest = trim_start s in if is_space (code c) then rest else c ∷ s

-- A space is kept when something stands behind it.
keep : Char → String → String
keep c [] = if is_space (code c) then [] else c ∷ []
keep c (d ∷ s) = c ∷ d ∷ s

trim_end : String → String
trim_end [] = []
trim_end (c ∷ s) = keep c (trim_end s)

unfoldable pub trim : String → String
unfolding is_space trim_start keep trim_end
trim s = trim_end (trim_start s)

-- `s.startsWith(p)`
unfoldable pub starts_with : String → String → Bool
starts_with s [] = true
starts_with [] (_ ∷ _) = false
starts_with (c ∷ s) (d ∷ p) = nat_eq (code c) (code d) && starts_with s p

-- `o?.trim() ?? ''`
abbrev pub trim_or_empty : Option String → String
trim_or_empty none = ""
trim_or_empty (some s) = trim s

-- A missing or empty text is false where JavaScript asks for a truth value.
abbrev pub is_truthy : Option String → Bool
is_truthy none = false
is_truthy (some []) = false
is_truthy (some (_ ∷ _)) = true
