-- ===== src/Controller/Managers/Loading.antt =====
-- The turns of the second loop, entry by entry of the store.
use cluster_api_control_plan.ExternalCluster.Store.{Store, get, stop, add}
use cluster_api_control_plan.Base.{
  ℕ, ◌≡◌, refl, String, ◌==◌, true, false, none, some, List, [], ◌∷◌, lookup, contains, inl, inr,
  Bool-cases, arith, eq_iff, eq_refl, lookup-erase, lookup-insert, if◌then◌else◌,
}
use cluster_api_control_plan.Controller.Managers.{
  Process, on_store, make_manager, load_key, load_keys,
}
use cluster_api_control_plan.Errors.{ok, Result-cases}
use cluster_api_control_plan.Objects.{Foreign, Secret}
use cluster_api_control_plan.Kube.{Kube}

module _ {ℓ} {M : Type ℓ} where
  pub lookup-stop :
      (key j : String) (s : Store M)
      → lookup j (stop key s).1.store ≡ (if key == j then none else lookup j s.store)
  unfolding stop
  lookup-stop key j s = ground (arith, lookup-erase key j s.store, eq_iff key j)

  pub lookup-add :
      (key rv j : String) (m : M) (c : ℕ) (s : Store M)
      → lookup key s.store ≡ none
      → lookup j (add key rv m c s).1.store ≡ (
          if key == j
          then some (record { resource_version = rv; manager = m; stop_func = c })
          else lookup j s.store)
  unfolding add
  lookup-add key rv j m c s h = ground (
    arith,
    lookup-insert key j (record { resource_version = rv; manager = m; stop_func = c }) s.store,
  )

module _ {F : Foreign} (K : Kube F) where
  -- A turn of the loop leaves the entries of other keys alone.
  pub lookup-load_key :
      (secret : Secret) (key j : String) (s : Process K)
      → (key == j) ≡ false
      → lookup j (load_key K secret key s).1.store.store ≡ lookup j s.store.store
  unfolding load_key
  lookup-load_key secret key j s ne =
      let stopped = on_store K (stop key) s in
      let (made, w1) = make_manager K secret key stopped.world in
      elim (Bool-cases (get key secret.meta.resource_version s.store).1) [
        | inl y ↦ ground arith
        | inr n ↦ elim (Result-cases made) [
          | inr (e, q) ↦ ground (arith, lookup-stop key j s.store)
          | inl (m, q) ↦ ground (
            arith,
            lookup-stop key j s.store,
            lookup-stop key key s.store,
            eq_refl key,
            lookup-add key secret.meta.resource_version j m (K.with_cancel w1).0 stopped.store,
          )
        ]
      ]

  -- After a turn that succeeds, the manager of the key runs with this version of the Secret.
  pub found-load_key :
      (secret : Secret) (key : String) (s : Process K)
      → (load_key K secret key s).0 ≡ ok tt
      → (get key secret.meta.resource_version (load_key K secret key s).1.store).1 ≡ true
  unfolding load_key get
  found-load_key secret key s h =
      let stopped = on_store K (stop key) s in
      let (made, w1) = make_manager K secret key stopped.world in
      elim (Bool-cases (get key secret.meta.resource_version s.store).1) [
        | inl y ↦ ground arith
        | inr n ↦ elim (Result-cases made) [
          | inr (e, q) ↦ ground arith
          | inl (m, q) ↦ ground (
            arith,
            lookup-stop key key s.store,
            eq_refl key,
            eq_refl secret.meta.resource_version,
            lookup-add key secret.meta.resource_version key m (K.with_cancel w1).0 stopped.store,
          )
        ]
      ]

  -- A manager that runs with this version goes on running.
  pub kept-load_key :
      (secret : Secret) (key j : String) (s : Process K)
      → (get j secret.meta.resource_version s.store).1 ≡ true
      → (get j secret.meta.resource_version (load_key K secret key s).1.store).1 ≡ true
  unfolding load_key get
  kept-load_key secret key j s h = elim (Bool-cases (key == j)) [
    | inl y ↦ ground (arith, eq_iff key j)
    | inr n ↦ ground (arith, lookup-load_key secret key j s n)
  ]

  pub kept-load_keys :
      (secret : Secret) (keys : List String) (j : String) (s : Process K)
      → (get j secret.meta.resource_version s.store).1 ≡ true
      → (get j secret.meta.resource_version (load_keys K secret keys s).1.store).1 ≡ true
  unfolding load_keys
  kept-load_keys secret [] j s h = h
  kept-load_keys secret (key ∷ keys) j s h = elim (Result-cases (load_key K secret key s).0) [
    | inr (e, q) ↦ ground (arith, kept-load_key secret key j s h)
    | inl (u, q) ↦ ground (
      arith,
      kept-load_keys secret keys j (load_key K secret key s).1 (kept-load_key secret key j s h),
    )
  ]

  pub found-load_keys :
      (secret : Secret) (keys : List String) (j : String) (s : Process K)
      → (load_keys K secret keys s).0 ≡ ok tt
      → contains j keys ≡ true
      → (get j secret.meta.resource_version (load_keys K secret keys s).1.store).1 ≡ true
  unfolding load_keys contains
  found-load_keys secret [] j s h c = ground arith
  found-load_keys secret (key ∷ keys) j s h c = elim (Result-cases (load_key K secret key s).0) [
    | inr (e, q) ↦ ground arith
    | inl (u, q) ↦ ground (
      arith,
      eq_iff key j,
      found-load_key secret key s q,
      kept-load_keys secret keys key (load_key K secret key s).1,
      found-load_keys secret keys j (load_key K secret key s).1,
    )
  ]

  pub lookup-load_keys :
      (secret : Secret) (keys : List String) (j : String) (s : Process K)
      → contains j keys ≡ false
      → lookup j (load_keys K secret keys s).1.store.store ≡ lookup j s.store.store
  unfolding load_keys contains
  lookup-load_keys secret [] j s h = refl
  lookup-load_keys secret (key ∷ keys) j s h = elim (Result-cases (load_key K secret key s).0) [
    | inr (e, q) ↦ ground (arith, lookup-load_key secret key j s)
    | inl (u, q) ↦ ground (
      arith,
      lookup-load_key secret key j s,
      lookup-load_keys secret keys j (load_key K secret key s).1,
    )
  ]
