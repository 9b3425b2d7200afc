-- ===== src/Startup/Laws.antt =====
-- What holds of a process that `main` starts.
use cluster_api_control_plan.Base.{
  String, ◌≡◌, true, false, List, [], ◌∷◌, contains, inl, inr, arith,
}
use mathlib.Core.Path.{subst}
use cluster_api_control_plan.Errors.{ok, is_ok, Result-cases}
use cluster_api_control_plan.Objects.{Foreign, KamajiControlPlane, Cluster}
use cluster_api_control_plan.Kube.{Kube}
use cluster_api_control_plan.Kube.Laws.{IsLawfulSets}
use cluster_api_control_plan.Controller.Run.{Reconciler}
use cluster_api_control_plan.Controller.ExternalReference.{
  external_cluster_reference, dynamic_infrastructure_cluster_patch, extract_remote_client,
}
use cluster_api_control_plan.Controller.ExternalReference.Laws.{extract_remote_client-IsExtracted}
use cluster_api_control_plan.Controller.ClusterPatch.Infrastructure.{patch_cluster}
use cluster_api_control_plan.Controller.ClusterPatch.Safety.{
  among, supported_kinds, patch_cluster-unsupported,
}
use cluster_api_control_plan.Startup.Calls.{Flags, Program, Host, ◌>>=◌, given}
use cluster_api_control_plan.Startup.Wiring.{
  indexers, setup_indexers, setup_kamaji_control_plane, setup_external_cluster_reference,
}
use cluster_api_control_plan.Startup.Main.{
  any_name, settings_of, parse_arguments, check_dynamic, reconciler_of, is_external, setup_external,
  run_manager, main,
}

ok-bind :
    {W A B : Type 0} (m : Program W A) (f : A → Program W B) {w w' : W} {b : B}
    → (m >>= f) w ≡ (ok b, w')
    → (a : A) × (w1 : W) × (m w ≡ (ok a, w1)) × (f a w1 ≡ (ok b, w'))
ok-bind m f {w} h = elim (Result-cases (m w).0) [
  | inl (a, q) ↦ (a, (m w).1, ground arith, ground arith)
  | inr (e, q) ↦ ground arith
]

module _ {F : Foreign} (K : Kube F) (H : Host K) where
  -- A process that got to its end, call by call from the world it started in to the one it ended in:
  -- the gates and flags, the manager, the set-up of the controllers on it, the checks, its run.
  pub record IsServed (arguments : List String) (w w' : K.World) : Type 0 where
    pub gate : H.Gate
    pub flags : Flags H.ManagerOptions
    pub metrics : H.MetricsOptions
    pub mgr : K.Manager
    pub made : K.World
    pub before : K.World
    pub after : K.World
    pub alive : K.World
    pub ready : K.World
    pub is_parsed : parse_arguments K H arguments ≡ ok (gate, flags)
    pub is_checked : check_dynamic K H gate flags.dynamic_infrastructure_clusters ≡ ok tt
    pub is_made : H.new_manager (settings_of flags metrics) w ≡ (ok mgr, made)
    pub is_set_up :
        setup_kamaji_control_plane K H
          (reconciler_of K H gate flags.dynamic_infrastructure_clusters)
          flags.max_concurrent_reconciles
          mgr
          made
        ≡ (ok tt, before)
    pub is_extended : setup_external K H gate mgr before ≡ (ok tt, after)
    pub has_healthz : H.add_healthz_check mgr "healthz" after ≡ (ok tt, alive)
    pub has_readyz : H.add_readyz_check mgr "readyz" alive ≡ (ok tt, ready)
    pub has_run : H.start mgr ready ≡ (ok tt, w')

  main-IsServed :
      (arguments : List String) (w : K.World) {w' : K.World}
      → main K H arguments w ≡ (ok tt, w')
      → IsServed arguments w w'
  unfolding main run_manager
  main-IsServed arguments w h =
      let (parsed, w1, q1, h1) = ok-bind (given (parse_arguments K H arguments)) _ h in
      let (gate, flags) = parsed in
      let (metrics, w2, q2, h2) =
        ok-bind (given (H.get_manager_options flags.manager_options)) _ h1 in
      let (u3, w3, q3, h3) =
        ok-bind (given (check_dynamic K H gate flags.dynamic_infrastructure_clusters)) _ h2 in
      let (mgr, w4, q4, h4) = ok-bind (H.new_manager (settings_of flags metrics)) _ h3 in
      let (u5, w5, q5, h5) =
        ok-bind
          (setup_kamaji_control_plane K H
            (reconciler_of K H gate flags.dynamic_infrastructure_clusters)
            flags.max_concurrent_reconciles mgr)
          _ h4 in
      let (u6, w6, q6, h6) = ok-bind (setup_external K H gate mgr) _ h5 in
      let (u7, w7, q7, h7) = ok-bind (H.add_healthz_check mgr "healthz") _ h6 in
      let (u8, w8, q8, h8) = ok-bind (H.add_readyz_check mgr "readyz") _ h7 in
      record {
        gate = gate;
        flags = flags;
        metrics = metrics;
        mgr = mgr;
        made = w4;
        before = w5;
        after = w6;
        alive = w7;
        ready = w8;
        is_parsed = ground arith;
        is_checked = ground arith;
        is_made = ground (arith, q1, q2, q3, q4);
        is_set_up = q5;
        is_extended = q6;
        has_healthz = q7;
        has_readyz = q8;
        has_run = h8;
      }

  has-none :
      IsLawfulSets K.new_set K.set_has K.set_insert K.set_delete K.unsorted_list
      → (names : List String) (kind : String) → any_name names ≡ false
      → K.set_has (K.new_set names) kind ≡ false
  unfolding contains
  has-none S [] kind h = S.has-new [] kind
  has-none S (x ∷ xs) kind h = ground arith

  none-check_dynamic :
      (gate : H.Gate) (names : List String)
      → check_dynamic K H gate names ≡ ok tt
      → H.enabled gate dynamic_infrastructure_cluster_patch ≡ false
      → any_name names ≡ false
  unfolding check_dynamic
  none-check_dynamic gate names h off = ground arith

  -- In a process that main serves to its end, with the gate of dynamic clusters closed, patchCluster
  -- refuses an infrastructure cluster of any kind that is not supported, with nothing read or
  -- written, whatever the flag of dynamic clusters says.
  pub main-unsupported :
      IsLawfulSets K.new_set K.set_has K.set_insert K.set_delete K.unsorted_list
      → (arguments : List String) (w : K.World) {w' : K.World} (gate : H.Gate)
        (flags : Flags H.ManagerOptions) (cluster : Cluster) (kcp : KamajiControlPlane F)
        (hostport : String) (v : K.World)
      → main K H arguments w ≡ (ok tt, w')
      → parse_arguments K H arguments ≡ ok (gate, flags)
      → H.enabled gate dynamic_infrastructure_cluster_patch ≡ false
      → among supported_kinds cluster.infrastructure_ref.kind ≡ false
      → let r = reconciler_of K H gate flags.dynamic_infrastructure_clusters in
        (is_ok (patch_cluster K r cluster kcp hostport v).0 ≡ false)
        × ((patch_cluster K r cluster kcp hostport v).1 ≡ v)
  main-unsupported S arguments w gate flags cluster kcp hostport v h parsed off unknown =
      let i = main-IsServed arguments w h in
      let names = flags.dynamic_infrastructure_clusters in
      let none =
        none-check_dynamic gate names (ground (arith, i.is_parsed, i.is_checked, parsed)) off in
      patch_cluster-unsupported K (reconciler_of K H gate names) cluster kcp hostport v unknown
        (has-none S names cluster.infrastructure_ref.kind none)

  open-extract :
      (r : Reconciler K) (kcp : KamajiControlPlane F) (v : K.World) {client : K.Client}
      {v' : K.World}
      → extract_remote_client K r kcp v ≡ (ok client, v')
      → r.enabled external_cluster_reference ≡ true
  open-extract r kcp v h = let i = extract_remote_client-IsExtracted K r kcp v h in i.gate_open

  -- The calls of a process on its one manager, from the world where it begins to the one where it
  -- ends: the manager is made, the controller of KamajiControlPlanes, the indexes and the controller
  -- of Secrets are set up on it, its checks are added, and it is started.
  pub record IsExternal (gate : H.Gate) (flags : Flags H.ManagerOptions) (w w' : K.World)
      : Type 0 where
    pub metrics : H.MetricsOptions
    pub mgr : K.Manager
    pub made : K.World
    pub managing : K.World
    pub indexed : K.World
    pub watching : K.World
    pub alive : K.World
    pub ready : K.World
    pub is_made : H.new_manager (settings_of flags metrics) w ≡ (ok mgr, made)
    pub is_set_up :
        setup_kamaji_control_plane K H
          (reconciler_of K H gate flags.dynamic_infrastructure_clusters)
          flags.max_concurrent_reconciles
          mgr
          made
        ≡ (ok tt, managing)
    pub is_indexed : setup_indexers K H indexers mgr managing ≡ (ok tt, indexed)
    pub is_watching : setup_external_cluster_reference K H mgr indexed ≡ (ok tt, watching)
    pub has_healthz : H.add_healthz_check mgr "healthz" watching ≡ (ok tt, alive)
    pub has_readyz : H.add_readyz_check mgr "readyz" alive ≡ (ok tt, ready)
    pub has_run : H.start mgr ready ≡ (ok tt, w')

  -- In a process that main serves to its end: if a reconciliation with its gates ever gets a client
  -- of another cluster, then on the manager that the process made and ran, the three indexes and the
  -- controller of Secrets were set up, after the controller of KamajiControlPlanes and before the
  -- manager was started.
  pub main-IsExternal :
      (arguments : List String) (w : K.World) {w' : K.World} (gate : H.Gate)
      (flags : Flags H.ManagerOptions) (r : Reconciler K) (kcp : KamajiControlPlane F) (v : K.World)
      {client : K.Client} {v' : K.World}
      → main K H arguments w ≡ (ok tt, w')
      → parse_arguments K H arguments ≡ ok (gate, flags)
      → r.enabled ≡ H.enabled gate
      → extract_remote_client K r kcp v ≡ (ok client, v')
      → IsExternal gate flags w w'
  unfolding setup_external
  main-IsExternal arguments w gate flags r kcp v h parsed gates got =
      let i = main-IsServed arguments w h in
      let opened = open-extract r kcp v got in
      let external : is_external K H i.gate ≡ true =
        ground (arith, i.is_parsed, parsed, gates, opened) in
      let same_gate : i.gate ≡ gate = ground (arith, i.is_parsed, parsed) in
      let same_flags : i.flags ≡ flags = ground (arith, i.is_parsed, parsed) in
      let (u, w2, q, rest) =
        ok-bind (setup_indexers K H indexers i.mgr)
          (λ _. setup_external_cluster_reference K H i.mgr) {w = i.before} {w' = i.after}
          (ground (arith, i.is_extended, external)) in
      record {
        metrics = i.metrics;
        mgr = i.mgr;
        made = i.made;
        managing = i.before;
        indexed = w2;
        watching = i.after;
        alive = i.alive;
        ready = i.ready;
        is_made =
            subst (λ f. H.new_manager (settings_of f i.metrics) w ≡ (ok i.mgr, i.made)) same_flags
              i.is_made;
        is_set_up =
            subst
              (λ (x : H.Gate × Flags H.ManagerOptions).
                setup_kamaji_control_plane K H
                  (reconciler_of K H x.0 x.1.dynamic_infrastructure_clusters)
                  x.1.max_concurrent_reconciles i.mgr i.made
                ≡ (ok tt, i.before))
              (λ j. (same_gate j, same_flags j)) i.is_set_up;
        is_indexed = q;
        is_watching = rest;
        has_healthz = i.has_healthz;
        has_readyz = i.has_readyz;
        has_run = i.has_run;
      }
