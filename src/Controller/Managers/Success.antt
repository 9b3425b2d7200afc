-- ===== src/Controller/Managers/Success.antt =====
-- That a pass over a Secret succeeds when every call that it makes is answered.
use cluster_api_control_plan.Base.{
  String, ◌==◌, ◌≡◌, refl, Bool, true, List, [], ◌∷◌, Entries, entries, lookup, map, contains, All,
  is_some, inl, inr, Bool-cases, arith, eq_iff, eq_refl,
}
use cluster_api_control_plan.GoNet.{split}
use cluster_api_control_plan.Errors.{Result, ok, is_ok, Result-cases}
use cluster_api_control_plan.Objects.{Foreign, Secret, KamajiControlPlane, Bytes}
use cluster_api_control_plan.Kube.{Kube}
use cluster_api_control_plan.ExternalCluster.Names.{key_name, generate_key_name_from_secret}
use cluster_api_control_plan.ExternalCluster.Names.Laws.{IsPlain, split-key_name}
use cluster_api_control_plan.ExternalCluster.Store.{get}
use cluster_api_control_plan.Controller.ExternalReference.{value_or_nil}
use cluster_api_control_plan.Controller.Push.{setup_push}
use cluster_api_control_plan.Controller.Managers.{
  third, Process, referenced_keys, make_manager, load_key, load_keys, reconcile_found,
}
use cluster_api_control_plan.Controller.Managers.References.{contains-referenced_keys}
use cluster_api_control_plan.Controller.Managers.Calm.{
  IsCalm, wanted, Calm-referenced_keys, Calm-load_key, referenced_keys-wanted,
}

-- A key of a Secret is made of one of its entries.
keys-entry :
    (namespace name key : String) (m : Entries Bytes)
    → All (λ (j, _). IsPlain namespace name j) m
    → contains key (map (λ (j, _). key_name namespace name j) m) ≡ true
    → (j : String) × (key ≡ key_name namespace name j)
      × IsPlain namespace name j
      × (is_some (lookup j m) ≡ true)
unfolding contains lookup
keys-entry namespace name key [] all c = ground arith
keys-entry namespace name key ((k, v) ∷ m) (p, all) c =
    elim (Bool-cases (key_name namespace name k == key)) [
      | inl y ↦ (
        k,
        ground (arith, y, eq_iff (key_name namespace name k) key),
        p,
        ground (arith, eq_refl k),
      )
      | inr n ↦
          let (j, q, plain, found) = keys-entry namespace name key m all (ground (arith, c, n)) in
          (j, q, plain, ground (arith, found))
    ]

-- What holds of all values holds of one that is found.
All-lookup :
    (P : Bytes → Bool) (m : Entries Bytes) (j : String)
    → All (λ (_, v). P v ≡ true) m
    → is_some (lookup j m) ≡ true
    → P (value_or_nil (lookup j m)) ≡ true
unfolding lookup
All-lookup P [] j all c = ground arith
All-lookup P ((k, v) ∷ m) j (p, all) c = elim (Bool-cases (k == j)) [
  | inl y ↦ ground (arith, p)
  | inr n ↦ ground (arith, All-lookup P m j all (ground (arith, c, n)))
]

module _ {F : Foreign} (K : Kube F) where
  -- The calls of a pass over a Secret are answered: the index knows all its keys, all its entries are
  -- kubeconfigs, and managers can be made.
  pub record IsAnswered (answer : String → Result (List (KamajiControlPlane F)))
      (Calm : K.World → Type 0) (secret : Secret) : Type 0 where
    pub is_calm : IsCalm K answer Calm
    pub lists :
        (key : String)
        → contains key (generate_key_name_from_secret secret) ≡ true
        → is_ok (answer key) ≡ true
    pub are_plain :
        All (λ (j, _). IsPlain secret.meta.namespace secret.meta.name j) (entries secret.contents)
    pub are_configs : All (λ (_, v). is_ok (K.rest_config v) ≡ true) (entries secret.contents)
    pub makes : (config : K.Config) (w : K.World) → Calm w → is_ok (K.new_manager config w).0 ≡ true
    pub sets_up : (m : K.Manager) (w : K.World) → Calm w → is_ok (setup_push K m w).0 ≡ true

  module _ {answer : String → Result (List (KamajiControlPlane F))} {Calm : K.World → Type 0}
      {secret : Secret} (i : IsAnswered answer Calm secret) where
    config-key :
        (key name : String)
        → contains key (generate_key_name_from_secret secret) ≡ true
        → third (split b'/' key) ≡ ok name
        → is_ok (K.rest_config (value_or_nil (lookup name (entries secret.contents)))) ≡ true
    unfolding generate_key_name_from_secret
    config-key key name c t =
        let (j, q, plain, found) =
          keys-entry secret.meta.namespace secret.meta.name key (entries secret.contents)
            i.are_plain c in
        let parts = split-key_name secret.meta.namespace secret.meta.name j plain in
        let same : name ≡ j = ground (arith, t, q, parts) in
        ground (
          arith,
          same,
          All-lookup (λ v. is_ok (K.rest_config v)) (entries secret.contents) j i.are_configs found,
        )

    third-key :
        (key : String)
        → contains key (generate_key_name_from_secret secret) ≡ true
        → is_ok (third (split b'/' key)) ≡ true
    unfolding generate_key_name_from_secret
    third-key key c =
        let (j, q, plain, found) =
          keys-entry secret.meta.namespace secret.meta.name key (entries secret.contents)
            i.are_plain c in
        ground (arith, q, split-key_name secret.meta.namespace secret.meta.name j plain)

    ok-make_manager :
        (key : String) (w : K.World)
        → contains key (generate_key_name_from_secret secret) ≡ true
        → Calm w
        → is_ok (make_manager K secret key w).0 ≡ true
    unfolding make_manager
    ok-make_manager key w c calm = elim (Result-cases (third (split b'/' key))) [
      | inr (e, q) ↦ ground (arith, third-key key c)
      | inl (name, q) ↦
          elim (Result-cases
            (K.rest_config (value_or_nil (lookup name (entries secret.contents))))) [
              | inr (e, p) ↦ ground (arith, config-key key name c q)
              | inl (config, p) ↦
                  let (made, w1) = K.new_manager config w in
                  let calm1 : Calm w1 = i.is_calm.after_new config w calm in
                  elim (Result-cases made) [
                    | inr (e, m) ↦ ground (arith, i.makes config w calm)
                    | inl (manager, m) ↦ elim (Result-cases (setup_push K manager w1).0) [
                      | inr (e, u) ↦ ground (arith, i.sets_up manager w1 calm1)
                      | inl (ready, u) ↦ ground arith
                    ]
                  ]
            ]
    ]

    ok-load_key :
        (key : String) (s : Process K)
        → contains key (generate_key_name_from_secret secret) ≡ true
        → Calm s.world
        → (load_key K secret key s).0 ≡ ok tt
    unfolding load_key
    ok-load_key key s c calm =
        let (made, w1) = make_manager K secret key s.world in
        elim (Bool-cases (get key secret.meta.resource_version s.store).1) [
          | inl y ↦ ground arith
          | inr n ↦ elim (Result-cases made) [
            | inr (e, q) ↦ ground (arith, ok-make_manager key s.world c calm)
            | inl (m, q) ↦ ground arith
          ]
        ]

    ok-load_keys :
        (keys : List String) (s : Process K)
        → ((key : String)
            → contains key keys ≡ true
            → contains key (generate_key_name_from_secret secret) ≡ true)
        → Calm s.world
        → (load_keys K secret keys s).0 ≡ ok tt
    unfolding load_keys contains
    ok-load_keys [] s within calm = refl
    ok-load_keys (key ∷ keys) s within calm =
        let s1 = (load_key K secret key s).1 in
        let first = ok-load_key key s (within key (ground (arith, eq_refl key))) calm in
        ground (
          arith,
          first,
          ok-load_keys keys s1 (λ k m. within k (ground arith))
              (Calm-load_key K i.is_calm secret key s calm),
        )

    ok-wanted :
        (keys : List String)
        → ((key : String)
            → contains key keys ≡ true
            → contains key (generate_key_name_from_secret secret) ≡ true)
        → is_ok (wanted K i.is_calm keys) ≡ true
    unfolding wanted contains
    ok-wanted [] within = refl
    ok-wanted (key ∷ keys) within =
        let rest = ok-wanted keys (λ k m. within k (ground arith)) in
        elim (Result-cases (answer key)) [
          | inr (e, q) ↦ ground (arith, i.lists key (within key (ground (arith, eq_refl key))))
          | inl ([], q) ↦ ground (arith, rest)
          | inl (kcp ∷ kcps, q) ↦ elim (Result-cases (wanted K i.is_calm keys)) [
            | inr (e, p) ↦ ground (arith, rest)
            | inl (used, p) ↦ ground arith
          ]
        ]

    pub ok-reconcile_found : (s : Process K) → Calm s.world → (reconcile_found K secret s).0 ≡ ok tt
    unfolding reconcile_found
    ok-reconcile_found s calm =
        let keys = generate_key_name_from_secret secret in
        let (r, s1) = referenced_keys K keys s in
        let want = referenced_keys-wanted K i.is_calm keys s calm in
        elim (Result-cases r) [
          | inr (e, q) ↦ ground (arith, want, ok-wanted keys (λ k m. m))
          | inl (used, q) ↦ ground (
            arith,
            ok-load_keys used s1
                (λ k m. elim (Bool-cases (contains k keys)) [
                  | inl y ↦ y
                  | inr n ↦ ground (arith, contains-referenced_keys K keys k s {used = used} q n)
                ])
                (Calm-referenced_keys K i.is_calm keys s calm),
          )
        ]
