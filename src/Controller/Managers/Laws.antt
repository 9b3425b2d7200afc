-- ===== src/Controller/Managers/Laws.antt =====
-- Which managers run when a Secret has been reconciled.
use cluster_api_control_plan.ExternalCluster.Store.{Instance, get, stop, add}
use cluster_api_control_plan.Base.{
  insert, ℕ, ◌≡◌, String, true, false, none, some, List, ◌∷◌, lookup, contains, inl, inr, arith,
  eq_refl, lookup-erase, lookup-insert,
}
use cluster_api_control_plan.Controller.Managers.{
  manager_failed, Process, on_store, referenced_keys, reconcile_found,
}
use cluster_api_control_plan.Errors.{ok, Result-cases}
use cluster_api_control_plan.Objects.{Foreign, Secret}
use cluster_api_control_plan.Kube.{Kube}
use cluster_api_control_plan.ExternalCluster.Names.{generate_key_name_from_secret}
use cluster_api_control_plan.Controller.Managers.Loading.{found-load_keys, lookup-load_keys}
use cluster_api_control_plan.Controller.Managers.References.{
  none-unreferenced, Listing, referenced_keys-Listing,
}

module _ {F : Foreign} (K : Kube F) where
  pub running-used :
      (secret : Secret) (s : Process K) {s' : Process K}
      → reconcile_found K secret s ≡ (ok tt, s')
      → (used : List String) × ((referenced_keys K (generate_key_name_from_secret secret) s).0
          ≡ ok used)
        × ((key : String)
            → contains key (generate_key_name_from_secret secret) ≡ true
            → (contains key used ≡ true → (get key secret.meta.resource_version s'.store).1 ≡ true)
              × (contains key used ≡ false → lookup key s'.store.store ≡ none))
  unfolding reconcile_found
  running-used secret s h =
      let keys = generate_key_name_from_secret secret in
      let (r, s1) = referenced_keys K keys s in
      elim (Result-cases r) [
        | inr (e, q) ↦ ground arith
        | inl (used, q) ↦ (
          used,
          q,
          λ key c. (
            λ y. ground (arith, found-load_keys K secret used key s1),
            λ n. ground (
              arith,
              lookup-load_keys K secret used key s1 n,
              none-unreferenced K keys key s {used = used} q c n,
            ),
          ),
        )
      ]

  -- When a Secret has been reconciled: the index was asked once for each of its keys, in their order,
  -- and for every key of those that it listed KamajiControlPlanes for, a manager runs with this
  -- version of the Secret; every other key has no manager.
  pub reconcile_found-running :
      (secret : Secret) (s : Process K) {s' : Process K}
      → reconcile_found K secret s ≡ (ok tt, s')
      → (used : List String) × (w : K.World) × Listing K
          (generate_key_name_from_secret secret)
          s.world
          used
          w
        × ((key : String)
            → contains key (generate_key_name_from_secret secret) ≡ true
            → (contains key used ≡ true → (get key secret.meta.resource_version s'.store).1 ≡ true)
              × (contains key used ≡ false → lookup key s'.store.store ≡ none))
  reconcile_found-running secret s h =
      let keys = generate_key_name_from_secret secret in
      let (used, q, each) = running-used secret s h in
      (used, (referenced_keys K keys s).1.world, referenced_keys-Listing K keys s q, each)

  -- A manager for a new key that fails to start: if that is noticed after it was added to the store,
  -- its entry goes away and its cancel function is called; if it is noticed before, nothing is
  -- called, and the store goes on showing the failed manager as the one that runs.
  pub manager_failed-order :
      (key rv : String) (m : K.Manager) (cancel : ℕ) (s : Process K)
      → lookup key s.store.store ≡ none
      → let after = manager_failed K key (on_store K (add key rv m cancel) s) in
        let before = on_store K (add key rv m cancel) (manager_failed K key s) in
        (lookup key after.store.store ≡ none)
        × (after.store.stopped ≡ cancel ∷ s.store.stopped)
        × (get key rv before.store ≡ (some m, true))
        × (before.store.stopped ≡ s.store.stopped)
  unfolding manager_failed get stop add
  manager_failed-order key rv m cancel s h =
      let v : Instance K.Manager = record {
        resource_version = rv;
        manager = m;
        stop_func = cancel;
      } in
      let put = lookup-insert key key v s.store.store in
      (
        ground (arith, eq_refl key, put, lookup-erase key key (insert key v s.store.store)),
        ground (arith, eq_refl key, put),
        ground (arith, eq_refl key, eq_refl rv, put),
        ground arith,
      )
