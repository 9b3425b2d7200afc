-- ===== src/Base/Maps/View.antt =====
-- What a Go map is to the program: the values of its keys, whatever the order of the entries.
use Prim.Native.String.{String}
use mathlib.Core.Path.{◌≡◌, refl, ap, sym, subst, ◌∙◌}
use mathlib.Core.Option.{Option}
use mathlib.Core.List.{[], ◌∷◌}
use mathlib.Core.List.{Perm}
use mathlib.Core.List.{Permᴰ}
use mathlib.Core.Logic.{∥∥₁_elim}
use mathlib.Core.Quot
use mathlib.Core.Quot.{Quot, Quot-set}
use native.Mathlib.Omega.{arith}
use text.Mathlib.TextEquality.{eq_iff, IsScalar-prop}
use native.Mathlib.Nat.{ℕ_set}
use cluster_api_control_plan.Base.Maps.{Entries, lookup, NodupKeys}

abbrev pub SameMap {ℓ} : {V : Type ℓ} → Entries V → Entries V → Type ℓ
SameMap m m' = (k : String) → lookup k m ≡ lookup k m'

-- A map without the order of its entries.
abbrev pub MapView {ℓ} : Type ℓ → Type ℓ
MapView V = Quot (SameMap {V = V})

abbrev pub view {ℓ} : {V : Type ℓ} → Entries V → MapView V
view m = Quot.mk m

set_text : IsSet (Option String)
set_text = hlevel (IsScalar-prop, ℕ_set)

-- m[k], for texts
get : String → MapView String → Option String
get k = Quot.lift set_text (lookup k) (λ m m' h. h k)

-- Two maps of texts are the same map exactly if their lookups agree.
pub view-SameMap : {m m' : Entries String} → view m ≡ view m' → SameMap m m'
unfolding get
view-SameMap h k = ap (get k) h

module _ {ℓ} {V : Type ℓ} where
  SameMap-cons : (a : String × V) (m m' : Entries V) → SameMap m m' → SameMap (a ∷ m) (a ∷ m')
  unfolding lookup
  SameMap-cons (j, v) m m' h k = ground (arith, h k)

  swap-SameMap :
      (a b : String × V) (m : Entries V)
      → NodupKeys (a ∷ b ∷ m)
      → SameMap (a ∷ b ∷ m) (b ∷ a ∷ m) × NodupKeys (b ∷ a ∷ m)
  unfolding lookup
  swap-SameMap (i, v) (j, w) m u = (
    λ k. ground (arith, eq_iff i k, eq_iff j k, eq_iff j i),
    ground (arith, eq_iff i j, eq_iff j i),
  )

  -- The same entries in another order.
  Permᴰ-SameMap : {m m' : Entries V} → Permᴰ m m' → NodupKeys m → SameMap m m' × NodupKeys m'
  Permᴰ-SameMap Permᴰ.nil u = (λ k. refl, tt)
  Permᴰ-SameMap (Permᴰ.cons {a} {b} {l₁} {l₂} e p) (fresh, u) =
      let (same, v) = Permᴰ-SameMap p u in
      (
        λ k. SameMap-cons a l₁ l₂ same k ∙ ap (λ x. lookup k (x ∷ l₂)) e,
        (sym (ap (λ x. lookup x.0 l₂) e) ∙ sym (same a.0) ∙ fresh, v),
      )
  Permᴰ-SameMap (Permᴰ.swap {a} {b} {a'} {b'} {l} e f) u =
      let (same, v) = swap-SameMap a b l u in
      (
        λ k. same k ∙ ap (λ x. lookup k (x ∷ a ∷ l)) f ∙ ap (λ y. lookup k (a' ∷ y ∷ l)) e,
        subst (λ x. NodupKeys (x ∷ b' ∷ l)) f (subst (λ y. NodupKeys (b ∷ y ∷ l)) e v),
      )
  Permᴰ-SameMap (Permᴰ.trans p q) u =
      let (same, v) = Permᴰ-SameMap p u in
      let (same', v') = Permᴰ-SameMap q v in (λ k. same k ∙ same' k, v')

NodupKeys-prop : (m : Entries String) → IsProp (NodupKeys m)
NodupKeys-prop [] = hlevel
NodupKeys-prop ((k, v) ∷ m) = hlevel (set_text, NodupKeys-prop m)

-- The order of the entries is not seen in the map.
pub Perm-view :
    {m m' : Entries String} → Perm m m' → NodupKeys m → (view m ≡ view m') × NodupKeys m'
Perm-view {m} {m'} h u =
    ∥∥₁_elim h (hlevel (Quot-set, NodupKeys-prop m'))
      (λ p. let (same, v) = Permᴰ-SameMap p u in (Quot.sound same, v))
