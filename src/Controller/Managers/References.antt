-- ===== src/Controller/Managers/References.antt =====
-- The first loop over the keys of a Secret, entry by entry of the store.
use cluster_api_control_plan.ExternalCluster.Store.{stop}
use cluster_api_control_plan.Base.{
  ◌≡◌, refl, String, true, false, none, List, [], ◌∷◌, lookup, contains, inl, inr, arith, eq_iff,
}
use cluster_api_control_plan.Controller.Managers.{
  Process, on_store, kamaji_by_key_field, referenced_keys,
}
use cluster_api_control_plan.Errors.{ok, Result-cases}
use cluster_api_control_plan.Objects.{Foreign, KamajiControlPlane}
use cluster_api_control_plan.Kube.{Kube}
use cluster_api_control_plan.Controller.Managers.Loading.{lookup-stop}

module _ {F : Foreign} (K : Kube F) where
  -- The first loop only stops managers.
  pub none-referenced_keys :
      (keys : List String) (j : String) (s : Process K)
      → lookup j s.store.store ≡ none
      → lookup j (referenced_keys K keys s).1.store.store ≡ none
  unfolding referenced_keys
  none-referenced_keys [] j s h = h
  none-referenced_keys (key ∷ keys) j s h =
      let (found, w1) = K.list_kcps kamaji_by_key_field key s.world in
      let s1 : Process K = record s { world = w1 } in
      elim (Result-cases found) [
        | inr (e, q) ↦ ground arith
        | inl ([], q) ↦ ground (
          arith,
          none-referenced_keys keys j (on_store K (stop key) s1),
          lookup-stop key j s.store,
        )
        | inl (kcp ∷ kcps, q) ↦ ground (arith, none-referenced_keys keys j s1)
      ]

  pub none-unreferenced :
      (keys : List String) (j : String) (s : Process K) {used : List String}
      → (referenced_keys K keys s).0 ≡ ok used
      → contains j keys ≡ true
      → contains j used ≡ false
      → lookup j (referenced_keys K keys s).1.store.store ≡ none
  unfolding referenced_keys contains
  none-unreferenced [] j s h c u = ground arith
  none-unreferenced (key ∷ keys) j s {used} h c u =
      let (found, w1) = K.list_kcps kamaji_by_key_field key s.world in
      let s1 : Process K = record s { world = w1 } in
      elim (Result-cases found) [
        | inr (e, q) ↦ ground arith
        | inl ([], q) ↦ ground (
          arith,
          eq_iff key j,
          lookup-stop key j s.store,
          none-referenced_keys keys j (on_store K (stop key) s1),
          none-unreferenced keys j (on_store K (stop key) s1) {used = used},
        )
        | inl (kcp ∷ kcps, q) ↦ elim (Result-cases (referenced_keys K keys s1).0) [
          | inr (e, p) ↦ ground arith
          | inl (rest, p) ↦
              ground (arith, eq_iff key j, none-unreferenced keys j s1 {used = rest} p)
        ]
      ]

  -- The first loop leaves alone the entries of keys that are not among the Secret's.
  pub lookup-referenced_keys :
      (keys : List String) (j : String) (s : Process K)
      → contains j keys ≡ false
      → lookup j (referenced_keys K keys s).1.store.store ≡ lookup j s.store.store
  unfolding referenced_keys contains
  lookup-referenced_keys [] j s c = refl
  lookup-referenced_keys (key ∷ keys) j s c =
      let (found, w1) = K.list_kcps kamaji_by_key_field key s.world in
      let s1 : Process K = record s { world = w1 } in
      elim (Result-cases found) [
        | inr (e, q) ↦ ground arith
        | inl ([], q) ↦ ground (
          arith,
          lookup-stop key j s.store,
          lookup-referenced_keys keys j (on_store K (stop key) s1),
        )
        | inl (kcp ∷ kcps, q) ↦ ground (arith, lookup-referenced_keys keys j s1)
      ]

  -- Only keys of the Secret are found to be referenced.
  pub contains-referenced_keys :
      (keys : List String) (j : String) (s : Process K) {used : List String}
      → (referenced_keys K keys s).0 ≡ ok used
      → contains j keys ≡ false
      → contains j used ≡ false
  unfolding referenced_keys contains
  contains-referenced_keys [] j s h c = ground arith
  contains-referenced_keys (key ∷ keys) j s {used} h c =
      let (found, w1) = K.list_kcps kamaji_by_key_field key s.world in
      let s1 : Process K = record s { world = w1 } in
      elim (Result-cases found) [
        | inr (e, q) ↦ ground arith
        | inl ([], q) ↦
            ground (arith, contains-referenced_keys keys j (on_store K (stop key) s1) {used = used})
        | inl (kcp ∷ kcps, q) ↦ elim (Result-cases (referenced_keys K keys s1).0) [
          | inr (e, p) ↦ ground arith
          | inl (rest, p) ↦ ground (arith, contains-referenced_keys keys j s1 {used = rest} p)
        ]
      ]

  -- What the index has answered to the calls of the first loop, one for each key and in their order,
  -- from the world at its start to the one at its end: which of the keys are used, which are not.
  pub data Listing : List String → K.World → List String → K.World → Type 0 where
    listed : {w : K.World} → Listing [] w [] w
    unused :
        {key : String} {keys used : List String} {w w1 w' : K.World}
        → K.list_kcps kamaji_by_key_field key w ≡ (ok [], w1)
        → Listing keys w1 used w'
        → Listing (key ∷ keys) w used w'
    in_use :
        {key : String} {keys used : List String} {w w1 w' : K.World} {kcp : KamajiControlPlane F}
        {kcps : List (KamajiControlPlane F)}
        → K.list_kcps kamaji_by_key_field key w ≡ (ok (kcp ∷ kcps), w1)
        → Listing keys w1 used w'
        → Listing (key ∷ keys) w (key ∷ used) w'

  pub referenced_keys-Listing :
      (keys : List String) (s : Process K) {used : List String}
      → (referenced_keys K keys s).0 ≡ ok used
      → Listing keys s.world used (referenced_keys K keys s).1.world
  unfolding referenced_keys
  referenced_keys-Listing [] s {used} h =
      let c : Listing [] s.world [] s.world = listed in ground (arith, c)
  referenced_keys-Listing (key ∷ keys) s {used} h =
      let (found, w1) = K.list_kcps kamaji_by_key_field key s.world in
      let s1 : Process K = record s { world = w1 } in
      elim (Result-cases found) [
        | inr (e, q) ↦ ground arith
        | inl ([], q) ↦
            let s2 = on_store K (stop key) s1 in
            let rest = referenced_keys-Listing keys s2 {used = used} (ground arith) in
            let c : Listing (key ∷ keys) s.world used (referenced_keys K keys s2).1.world =
              unused (ground arith) rest in
            ground (arith, c)
        | inl (kcp ∷ kcps, q) ↦ elim (Result-cases (referenced_keys K keys s1).0) [
          | inr (e, p) ↦ ground arith
          | inl (others, p) ↦
              let rest = referenced_keys-Listing keys s1 p in
              let c : Listing (key ∷ keys) s.world (key ∷ others)
                  (referenced_keys K keys s1).1.world =
                in_use {kcp = kcp} {kcps = kcps} (ground arith) rest in
              ground (arith, c)
        ]
      ]
