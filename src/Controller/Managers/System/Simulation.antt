-- ===== src/Controller/Managers/System/Simulation.antt =====
-- The passes of the worker as steps of the system.
use cluster_api_control_plan.Base.{String, refl, List, [], ◌∷◌, inl, inr, Bool-cases, arith}
use cluster_api_control_plan.Errors.{is_not_found, Result-cases}
use cluster_api_control_plan.Objects.{Foreign, Secret, ObjectKey}
use cluster_api_control_plan.Kube.{Kube}
use cluster_api_control_plan.ExternalCluster.Names.{generate_key_name_from_secret}
use cluster_api_control_plan.ExternalCluster.Store.{get, stop}
use cluster_api_control_plan.Controller.Managers.{
  Process, on_store, kamaji_by_key_field, referenced_keys, make_manager, load_key, load_keys,
  reconcile_found, reconcile_secret,
}
use cluster_api_control_plan.Controller.Managers.System.{
  idle, System, stop_unused, look, clear, give_up, launch, enter, Steps, here, next,
}

module _ {ℓ} {M : Type ℓ} where
  Steps-trans : {s t u : System M} → Steps s t → Steps t u → Steps s u
  Steps-trans here r = r
  Steps-trans (next st rest) r = next st (Steps-trans rest r)

module _ {F : Foreign} (K : Kube F) where
  -- The worker between two turns, when no goroutine has ended.
  abbrev pub system : Process K → System K.Manager
  system s = record { store = s.store; pc = idle; running = s.starting; started = s.starting }

  Steps-load_key :
      (secret : Secret) (key : String) (s : Process K)
      → Steps (system s) (system (load_key K secret key s).1)
  unfolding load_key
  Steps-load_key secret key s =
      let stopped = on_store K (stop key) s in
      let (made, w1) = make_manager K secret key stopped.world in
      elim (Bool-cases (get key secret.meta.resource_version s.store).1) [
        | inl y ↦ rw y here
        | inr n ↦ elim (Result-cases made) [
          | inr (e, q) ↦
              rw (n, q)
                (next (look key secret.meta.resource_version refl n)
                  (next (clear refl) (next (give_up refl) here)))
          | inl (m, q) ↦
              let c = (K.with_cancel w1).0 in
              rw (n, q)
                (next (look key secret.meta.resource_version refl n)
                  (next (clear refl) (next (launch m c refl) (next (enter refl) here))))
        ]
      ]

  Steps-load_keys :
      (secret : Secret) (keys : List String) (s : Process K)
      → Steps (system s) (system (load_keys K secret keys s).1)
  unfolding load_keys
  Steps-load_keys secret [] s = here
  Steps-load_keys secret (key ∷ keys) s =
      let s1 = (load_key K secret key s).1 in
      let first = Steps-load_key secret key s in
      elim (Result-cases (load_key K secret key s).0) [
        | inr (e, q) ↦ ground (arith, first)
        | inl (u, q) ↦ ground (arith, Steps-trans first (Steps-load_keys secret keys s1))
      ]

  Steps-referenced_keys :
      (keys : List String) (s : Process K) → Steps (system s) (system (referenced_keys K keys s).1)
  unfolding referenced_keys
  Steps-referenced_keys [] s = here
  Steps-referenced_keys (key ∷ keys) s =
      let (found, w1) = K.list_kcps kamaji_by_key_field key s.world in
      let s1 : Process K = record s { world = w1 } in
      let stopped = on_store K (stop key) s1 in
      elim (Result-cases found) [
        | inr (e, q) ↦ ground (arith, here {s = system s})
        | inl ([], q) ↦ ground (
          arith,
          next {s = system s} {t = system stopped} (stop_unused key refl)
              (Steps-referenced_keys keys stopped),
        )
        | inl (kcp ∷ kcps, q) ↦ ground (arith, Steps-referenced_keys keys s1)
      ]

  Steps-reconcile_found :
      (secret : Secret) (s : Process K) → Steps (system s) (system (reconcile_found K secret s).1)
  unfolding reconcile_found
  Steps-reconcile_found secret s =
      let (r, s1) = referenced_keys K (generate_key_name_from_secret secret) s in
      let first = Steps-referenced_keys (generate_key_name_from_secret secret) s in
      elim (Result-cases r) [
        | inr (e, q) ↦ ground (arith, first)
        | inl (used, q) ↦ ground (arith, Steps-trans first (Steps-load_keys secret used s1))
      ]

  -- Every pass, whatever its outcome, is a sequence of steps of the system: from the worker between
  -- two turns to the worker between two turns, with the store and the goroutines of the pass.
  pub Steps-reconcile_secret :
      (request : ObjectKey) (s : Process K)
      → Steps (system s) (system (reconcile_secret K request s).1)
  unfolding reconcile_secret
  Steps-reconcile_secret request s =
      let (found, w1) = K.get_secret K.local request s.world in
      let s1 : Process K = record s { world = w1 } in
      elim (Result-cases found) [
        | inr (e, q) ↦ elim (Bool-cases (is_not_found e)) [
          | inl y ↦ ground (arith, here {s = system s})
          | inr n ↦ ground (arith, here {s = system s})
        ]
        | inl (secret, q) ↦ ground (arith, Steps-reconcile_found secret s1)
      ]
