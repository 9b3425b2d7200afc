-- ===== src/Controller/Managers/Stability.antt =====
-- Another pass over a Secret that nothing has changed.
use cluster_api_control_plan.ExternalCluster.Store.{get}
use cluster_api_control_plan.Base.{
  ◌≡◌, refl, String, true, false, List, [], ◌∷◌, contains, inl, inr, Bool-cases, arith, eq_refl,
}
use cluster_api_control_plan.Controller.Managers.{
  Process, has_none, referenced_keys, load_key, load_keys, reconcile_found,
}
use cluster_api_control_plan.Controller.Managers.References.{contains-referenced_keys}
use cluster_api_control_plan.Controller.Managers.Laws.{running-used}
use cluster_api_control_plan.Errors.{Result, ok}
use cluster_api_control_plan.Objects.{Foreign, Secret, KamajiControlPlane}
use cluster_api_control_plan.Kube.{Kube}
use cluster_api_control_plan.ExternalCluster.Names.{generate_key_name_from_secret}
use cluster_api_control_plan.Controller.Managers.Calm.{
  IsCalm, referenced_keys-wanted, starting-referenced_keys, store-referenced_keys, contains-wanted,
  wanted-contains, Calm-reconcile_found,
}

module _ {F : Foreign} (K : Kube F) where
  -- The second loop does nothing if all managers run with this version of the Secret.
  load_keys-eq :
      (secret : Secret) (keys : List String) (s : Process K)
      → ((key : String)
          → contains key keys ≡ true
          → (get key secret.meta.resource_version s.store).1 ≡ true)
      → load_keys K secret keys s ≡ (ok tt, s)
  unfolding load_keys load_key contains
  load_keys-eq secret [] s run = refl
  load_keys-eq secret (key ∷ keys) s run = ground (
    arith,
    run key (ground (arith, eq_refl key)),
    load_keys-eq secret keys s (λ k m. run k (ground arith)),
  )

  -- When a pass has succeeded, the managers of all keys of the Secret that somebody refers to run.
  pub wanted-running :
      {answer : String → Result (List (KamajiControlPlane F))} {Calm : K.World → Type 0}
      → IsCalm K answer Calm
      → (secret : Secret) (s : Process K) {s' : Process K} (key : String) → Calm s.world
      → reconcile_found K secret s ≡ (ok tt, s')
      → contains key (generate_key_name_from_secret secret) ≡ true
      → has_none K (answer key) ≡ false
      → (get key secret.meta.resource_version s'.store).1 ≡ true
  wanted-running calm secret s key c h m n =
      let keys = generate_key_name_from_secret secret in
      let (used, listed, each) = running-used K secret s h in
      let want = referenced_keys-wanted K calm keys s c in
      (each key m).0
        (wanted-contains K calm keys key {used = used} (ground (arith, want, listed)) n m)

  -- In worlds where the answers of the index do not change: when a pass over a Secret has succeeded,
  -- another pass over the same version of it succeeds too, stops and starts no manager, and leaves
  -- the store as it is.
  pub reconcile_found-stable :
      {answer : String → Result (List (KamajiControlPlane F))} {Calm : K.World → Type 0}
      → IsCalm K answer Calm
      → (secret : Secret) (s : Process K) {s' : Process K} → Calm s.world
      → reconcile_found K secret s ≡ (ok tt, s')
      → ((reconcile_found K secret s').0 ≡ ok tt)
        × ((reconcile_found K secret s').1.store ≡ s'.store)
        × ((reconcile_found K secret s').1.starting ≡ s'.starting)
  unfolding reconcile_found
  reconcile_found-stable {answer} {Calm} calm secret s {s'} c h =
      let keys = generate_key_name_from_secret secret in
      let (used, listed, each) = running-used K secret s h in
      let c1 : Calm s'.world = ground (arith, h, Calm-reconcile_found K calm secret s c) in
      let (found, s2) = referenced_keys K keys s' in
      let want = referenced_keys-wanted K calm keys s c in
      let again = referenced_keys-wanted K calm keys s' c1 in
      let same : found ≡ ok used = ground (arith, want, again, listed) in
      let kept : s2.store ≡ s'.store =
        store-referenced_keys K calm keys s' c1 (λ k m n.
          (each k m).1 (contains-wanted K calm keys k (ground (arith, want, listed)) n)) in
      let rest = load_keys-eq secret used s2 (λ k m. elim (Bool-cases (contains k keys)) [
        | inl y ↦ ground (arith, kept, (each k y).0 m)
        | inr n ↦ ground (arith, contains-referenced_keys K keys k s {used = used} listed n)
      ]) in
      let starting = starting-referenced_keys K calm keys s' in
      (
        ground (arith, same, rest),
        ground (arith, same, rest, kept),
        ground (arith, same, rest, starting),
      )
