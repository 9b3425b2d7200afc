-- ===== src/Controller/Managers/Frame.antt =====
-- What a pass over a Secret leaves alone.
use cluster_api_control_plan.Base.{
  ◌≡◌, String, false, lookup, contains, inl, inr, Bool-cases, arith,
}
use cluster_api_control_plan.Controller.Managers.{
  Process, referenced_keys, reconcile_found, reconcile_secret,
}
use cluster_api_control_plan.Errors.{ok, Result-cases, is_not_found}
use cluster_api_control_plan.Objects.{Foreign, Secret, ObjectKey}
use cluster_api_control_plan.Kube.{Kube}
use cluster_api_control_plan.ExternalCluster.Names.{generate_key_name_from_secret}
use cluster_api_control_plan.Controller.Managers.Loading.{lookup-load_keys}
use cluster_api_control_plan.Controller.Managers.References.{
  lookup-referenced_keys, contains-referenced_keys,
}

module _ {F : Foreign} (K : Kube F) where
  lookup-reconcile_found :
      (secret : Secret) (j : String) (s : Process K)
      → contains j (generate_key_name_from_secret secret) ≡ false
      → lookup j (reconcile_found K secret s).1.store.store ≡ lookup j s.store.store
  unfolding reconcile_found
  lookup-reconcile_found secret j s c =
      let keys = generate_key_name_from_secret secret in
      let (r, s1) = referenced_keys K keys s in
      elim (Result-cases r) [
        | inr (e, q) ↦ ground (arith, lookup-referenced_keys K keys j s c)
        | inl (used, q) ↦ ground (
          arith,
          lookup-referenced_keys K keys j s c,
          lookup-load_keys K secret used j s1
              (contains-referenced_keys K keys j s {used = used} q c),
        )
      ]

  -- Whatever a pass over a Secret answers, errors included, it neither starts, replaces nor stops the
  -- manager of a key that is not one of the Secret as it is read: when the Secret is gone, or an
  -- entry was taken out of it, the managers that were started for it stay.
  pub reconcile_secret-frame :
      (request : ObjectKey) (j : String) (s : Process K)
      → ((secret : Secret)
          → (K.get_secret K.local request s.world).0 ≡ ok secret
          → contains j (generate_key_name_from_secret secret) ≡ false)
      → lookup j (reconcile_secret K request s).1.store.store ≡ lookup j s.store.store
  unfolding reconcile_secret
  reconcile_secret-frame request j s c =
      let (found, w1) = K.get_secret K.local request s.world in
      elim (Result-cases found) [
        | inr (e, q) ↦ elim (Bool-cases (is_not_found e)) [
          | inl y ↦ ground arith
          | inr n ↦ ground arith
        ]
        | inl (secret, q) ↦
            ground (arith, lookup-reconcile_found secret j (record s { world = w1 }) (c secret q))
      ]
