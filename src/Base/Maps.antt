-- ===== src/Base/Maps.antt =====
-- Go maps with string keys. A map is the list of its entries, in an order that the program never
-- relies on; `none` is the nil map, which reads like an empty one.
pub mod View
use Prim.Native.String.{String}
use mathlib.Core.Bool.{Bool, false, ◌||◌}
use mathlib.Core.Path.{◌≡◌, refl}
use mathlib.Core.Option.{Option, none, some}
use mathlib.Core.List.{List, [], ◌∷◌}
use native.Mathlib.Omega.{arith}
use text.Mathlib.TextEquality.{eq_iff}
use cluster_api_control_plan.Base.Tests.{◌==◌, if◌then◌else◌}

abbrev pub Entries {ℓ} : Type ℓ → Type ℓ
Entries V = List (String × V)

abbrev pub GoMap {ℓ} : Type ℓ → Type ℓ
GoMap V = Option (Entries V)

module _ {ℓ} {V : Type ℓ} where
  -- v, ok := m[k]
  unfoldable pub lookup : String → Entries V → Option V
  lookup key ((k, value) ∷ more) = if k == key then some value else lookup key more
  lookup key [] = none

  -- m[k] = v
  unfoldable pub insert : String → V → Entries V → Entries V
  insert key value ((k, old) ∷ more) =
      let rest = insert key value more in if k == key then (key, value) ∷ more else (k, old) ∷ rest
  insert key value [] = (key, value) ∷ []

  -- delete(m, k)
  unfoldable pub erase : String → Entries V → Entries V
  erase k [] = []
  erase k ((j, w) ∷ m) = let rest = erase k m in if j == k then rest else (j, w) ∷ rest

  -- The entries of a map that may be nil.
  abbrev pub entries : GoMap V → Entries V
  entries none = []
  entries (some m) = m

  -- No key has two entries.
  abbrev pub NodupKeys : Entries V → Type ℓ
  NodupKeys [] = Unit
  NodupKeys ((k, v) ∷ m) = (lookup k m ≡ none) × NodupKeys m

  pub lookup-insert :
      (key other : String) (value : V) (m : Entries V)
      → lookup other (insert key value m) ≡ (if key == other then some value else lookup other m)
  unfolding lookup insert
  lookup-insert key other value ((k, old) ∷ more) =
      ground
        (arith, lookup-insert key other value more, eq_iff k other, eq_iff k key, eq_iff key other)
  lookup-insert key other value [] = refl

  pub lookup-erase :
      (k j : String) (m : Entries V) → lookup j (erase k m) ≡ (if k == j then none else lookup j m)
  unfolding lookup erase
  lookup-erase k j [] = ground arith
  lookup-erase k j ((i, w) ∷ m) =
      ground (arith, lookup-erase k j m, eq_iff i k, eq_iff i j, eq_iff k j)

-- Whether a text is in a list.
unfoldable pub contains : String → List String → Bool
contains k [] = false
contains k (x ∷ xs) = x == k || contains k xs

-- A predicate on every element.
abbrev pub All {ℓ κ} : {A : Type ℓ} → (A → Type κ) → List A → Type κ
All P [] = Unit
All P (x ∷ xs) = P x × All P xs
