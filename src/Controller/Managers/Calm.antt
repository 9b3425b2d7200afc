-- ===== src/Controller/Managers/Calm.antt =====
-- Worlds that a pass over a Secret leaves as they are, and the passes in them.
use cluster_api_control_plan.ExternalCluster.Store.{Store, get, stop}
use cluster_api_control_plan.Base.{
  entries, ◌≡◌, refl, String, true, false, none, List, [], ◌∷◌, lookup, contains, inl, inr,
  Bool-cases, arith, eq_iff, eq_refl,
}
use cluster_api_control_plan.Controller.Managers.{
  third, Process, on_store, has_none, keep, kamaji_by_key_field, referenced_keys, make_manager,
  load_key, load_keys, reconcile_found,
}
use cluster_api_control_plan.Controller.Push.{setup_push}
use cluster_api_control_plan.Controller.ExternalReference.{value_or_nil}
use cluster_api_control_plan.GoNet.{split}
use cluster_api_control_plan.Errors.{Result, ok, err, Result-cases}
use cluster_api_control_plan.Objects.{Foreign, Secret, KamajiControlPlane}
use cluster_api_control_plan.Kube.{Kube}
use cluster_api_control_plan.ExternalCluster.Names.{generate_key_name_from_secret}

stop-absent {ℓ} :
    {M : Type ℓ} (key : String) (s : Store M) → lookup key s.store ≡ none → (stop key s).1 ≡ s
unfolding stop
stop-absent key s h = ground arith

module _ {F : Foreign} (K : Kube F) where
  -- Worlds in which the index has fixed answers, and which the calls of a pass do not leave.
  pub record IsCalm (answer : String → Result (List (KamajiControlPlane F)))
      (Calm : K.World → Type 0) : Type 0 where
    pub listed :
        (key : String) (w : K.World)
        → Calm w
        → (K.list_kcps kamaji_by_key_field key w).0 ≡ answer key
    pub after_list :
        (key : String) (w : K.World) → Calm w → Calm (K.list_kcps kamaji_by_key_field key w).1
    pub after_new : (c : K.Config) (w : K.World) → Calm w → Calm (K.new_manager c w).1
    pub after_setup : (m : K.Manager) (w : K.World) → Calm w → Calm (setup_push K m w).1
    pub after_cancel : (w : K.World) → Calm w → Calm (K.with_cancel w).1

  module _ {answer : String → Result (List (KamajiControlPlane F))} {Calm : K.World → Type 0}
      (calm : IsCalm answer Calm) where
    -- The keys that the fixed answers refer to.
    unfoldable pub wanted : List String → Result (List String)
    wanted [] = ok []
    wanted (key ∷ keys) =
        let rest = wanted keys in
        elim (answer key) [ err e ↦ err e | ok kcps ↦ keep K key kcps rest ]

    pub Calm-referenced_keys :
        (keys : List String) (s : Process K)
        → Calm s.world
        → Calm (referenced_keys K keys s).1.world
    unfolding referenced_keys
    Calm-referenced_keys [] s c = c
    Calm-referenced_keys (key ∷ keys) s c =
        let (found, w1) = K.list_kcps kamaji_by_key_field key s.world in
        let s1 : Process K = record s { world = w1 } in
        let c1 : Calm w1 = calm.after_list key s.world c in
        elim (Result-cases found) [
          | inr (e, q) ↦ ground (arith, c1)
          | inl ([], q) ↦ ground (arith, Calm-referenced_keys keys (on_store K (stop key) s1) c1)
          | inl (kcp ∷ kcps, q) ↦ ground (arith, Calm-referenced_keys keys s1 c1)
        ]

    pub referenced_keys-wanted :
        (keys : List String) (s : Process K)
        → Calm s.world
        → (referenced_keys K keys s).0 ≡ wanted keys
    unfolding referenced_keys wanted
    referenced_keys-wanted [] s c = refl
    referenced_keys-wanted (key ∷ keys) s c =
        let (found, w1) = K.list_kcps kamaji_by_key_field key s.world in
        let s1 : Process K = record s { world = w1 } in
        let c1 : Calm w1 = calm.after_list key s.world c in
        let same = calm.listed key s.world c in
        elim (Result-cases found) [
          | inr (e, q) ↦ ground (arith, same)
          | inl ([], q) ↦
              ground (arith, same, referenced_keys-wanted keys (on_store K (stop key) s1) c1)
          | inl (kcp ∷ kcps, q) ↦ ground (arith, same, referenced_keys-wanted keys s1 c1)
        ]

    pub starting-referenced_keys :
        (keys : List String) (s : Process K) → (referenced_keys K keys s).1.starting ≡ s.starting
    unfolding referenced_keys
    starting-referenced_keys [] s = refl
    starting-referenced_keys (key ∷ keys) s =
        let (found, w1) = K.list_kcps kamaji_by_key_field key s.world in
        let s1 : Process K = record s { world = w1 } in
        elim (Result-cases found) [
          | inr (e, q) ↦ ground arith
          | inl ([], q) ↦ ground (arith, starting-referenced_keys keys (on_store K (stop key) s1))
          | inl (kcp ∷ kcps, q) ↦ ground (arith, starting-referenced_keys keys s1)
        ]

    -- If no key that is referred to by nobody has a manager, the first loop stops none.
    pub store-referenced_keys :
        (keys : List String) (s : Process K)
        → Calm s.world
        → ((key : String)
            → contains key keys ≡ true
            → has_none K (answer key) ≡ true
            → lookup key s.store.store ≡ none)
        → (referenced_keys K keys s).1.store ≡ s.store
    unfolding referenced_keys contains
    store-referenced_keys [] s c absent = refl
    store-referenced_keys (key ∷ keys) s c absent =
        let (found, w1) = K.list_kcps kamaji_by_key_field key s.world in
        let s1 : Process K = record s { world = w1 } in
        let c1 : Calm w1 = calm.after_list key s.world c in
        let same = calm.listed key s.world c in
        let absent1 : (k : String)
            → contains k keys ≡ true
            → has_none K (answer k) ≡ true
            → lookup k s.store.store ≡ none =
          λ k m. absent k (ground arith) in
        elim (Result-cases found) [
          | inr (e, q) ↦ ground arith
          | inl ([], q) ↦
              let gone = absent key (ground (arith, eq_refl key)) (ground (arith, same)) in
              let kept = stop-absent key s.store gone in
              ground (
                arith,
                kept,
                store-referenced_keys keys (on_store K (stop key) s1) c1
                    (λ k m n. ground (arith, kept, absent1 k m n)),
              )
          | inl (kcp ∷ kcps, q) ↦ ground (arith, store-referenced_keys keys s1 c1 absent1)
        ]

    -- A key that is referred to by nobody is not wanted.
    pub contains-wanted :
        (keys : List String) (key : String) {used : List String}
        → wanted keys ≡ ok used
        → has_none K (answer key) ≡ true
        → contains key used ≡ false
    unfolding wanted contains
    contains-wanted [] key h n = ground arith
    contains-wanted (k ∷ keys) key {used} h n = elim (Result-cases (answer k)) [
      | inr (e, q) ↦ ground arith
      | inl ([], q) ↦ ground (arith, contains-wanted keys key {used = used})
      | inl (kcp ∷ kcps, q) ↦ elim (Result-cases (wanted keys)) [
        | inr (e, p) ↦ ground arith
        | inl (rest, p) ↦ ground (arith, eq_iff k key, contains-wanted keys key {used = rest} p n)
      ]
    ]

    -- A key of the Secret that somebody refers to is wanted.
    pub wanted-contains :
        (keys : List String) (key : String) {used : List String}
        → wanted keys ≡ ok used
        → has_none K (answer key) ≡ false
        → contains key keys ≡ true
        → contains key used ≡ true
    unfolding wanted contains
    wanted-contains [] key h n c = ground arith
    wanted-contains (k ∷ keys) key {used} h n c = elim (Result-cases (answer k)) [
      | inr (e, q) ↦ ground arith
      | inl ([], q) ↦ ground (arith, eq_iff k key, wanted-contains keys key {used = used})
      | inl (kcp ∷ kcps, q) ↦ elim (Result-cases (wanted keys)) [
        | inr (e, p) ↦ ground arith
        | inl (rest, p) ↦ ground (arith, eq_iff k key, wanted-contains keys key {used = rest} p n)
      ]
    ]

    pub Calm-make_manager :
        (secret : Secret) (key : String) (w : K.World)
        → Calm w
        → Calm (make_manager K secret key w).1
    unfolding make_manager
    Calm-make_manager secret key w c = elim (Result-cases (third (split b'/' key))) [
      | inr (e, q) ↦ ground (arith, c)
      | inl (name, q) ↦
          elim (Result-cases
            (K.rest_config (value_or_nil (lookup name (entries secret.contents))))) [
              | inr (e, p) ↦ ground (arith, c)
              | inl (config, p) ↦
                  let (made, w1) = K.new_manager config w in
                  let c1 : Calm w1 = calm.after_new config w c in
                  elim (Result-cases made) [
                    | inr (e, m) ↦ ground (arith, c1)
                    | inl (manager, m) ↦ elim (Result-cases (setup_push K manager w1).0) [
                      | inr (e, u) ↦ ground (arith, calm.after_setup manager w1 c1)
                      | inl (ready, u) ↦ ground (arith, calm.after_setup manager w1 c1)
                    ]
                  ]
            ]
    ]

    pub Calm-load_key :
        (secret : Secret) (key : String) (s : Process K)
        → Calm s.world
        → Calm (load_key K secret key s).1.world
    unfolding load_key
    Calm-load_key secret key s c =
        let (made, w1) = make_manager K secret key s.world in
        let c1 : Calm w1 = Calm-make_manager secret key s.world c in
        elim (Bool-cases (get key secret.meta.resource_version s.store).1) [
          | inl y ↦ ground (arith, c)
          | inr n ↦ elim (Result-cases made) [
            | inr (e, q) ↦ ground (arith, c1)
            | inl (m, q) ↦ ground (arith, calm.after_cancel w1 c1)
          ]
        ]

    pub Calm-load_keys :
        (secret : Secret) (keys : List String) (s : Process K)
        → Calm s.world
        → Calm (load_keys K secret keys s).1.world
    unfolding load_keys
    Calm-load_keys secret [] s c = c
    Calm-load_keys secret (key ∷ keys) s c =
        let s1 = (load_key K secret key s).1 in
        let c1 = Calm-load_key secret key s c in
        elim (Result-cases (load_key K secret key s).0) [
          | inr (e, q) ↦ ground (arith, c1)
          | inl (u, q) ↦ ground (arith, Calm-load_keys secret keys s1 c1)
        ]

    pub Calm-reconcile_found :
        (secret : Secret) (s : Process K) → Calm s.world → Calm (reconcile_found K secret s).1.world
    unfolding reconcile_found
    Calm-reconcile_found secret s c =
        let keys = generate_key_name_from_secret secret in
        let (r, s1) = referenced_keys K keys s in
        let c1 = Calm-referenced_keys keys s c in
        elim (Result-cases r) [
          | inr (e, q) ↦ ground (arith, c1)
          | inl (used, q) ↦ ground (arith, Calm-load_keys secret used s1 c1)
        ]
