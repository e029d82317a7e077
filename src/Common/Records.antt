-- ===== src/Common/Records.antt =====
-- `Record<string, V>` used by `get`, assignment and `delete`: a function of the key.
use Prim.Native.String.{String}
use mathlib.Core.Option.{Option, none, some}
use mathlib.Core.List.{List, []}
use messaging_system.Common.Tests.{◌==◌, if◌then◌else◌, get_or}

abbrev pub Dict {ℓ} : Type ℓ → Type ℓ
Dict V = String → Option V

module _ {ℓ} {V : Type ℓ} where
  abbrev pub empty : Dict V
  empty _ = none

  -- `m[k] = v`
  abbrev pub put : String → V → Dict V → Dict V
  put k v m j = if k == j then some v else m j

  -- `delete m[k]`
  abbrev pub remove : String → Dict V → Dict V
  remove k m j = if k == j then none else m j

-- `m[k] ?? []`
abbrev pub get_list {ℓ} : {V : Type ℓ} → String → Dict (List V) → List V
get_list k m = get_or (m k) []
