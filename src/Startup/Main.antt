-- ===== src/Startup/Main.antt =====
-- `main`: an error is logged and ends the process with status 1.
use cluster_api_control_plan.Base.{
  String, Bool, true, false, ◌&&◌, ◌||◌, not, List, [], ◌∷◌, if◌then◌else◌,
}
use cluster_api_control_plan.Errors.{Result, ok, err, new_error}
use cluster_api_control_plan.Objects.{Foreign}
use cluster_api_control_plan.Kube.{Kube}
use cluster_api_control_plan.ExternalCluster.Store.{new_store}
use cluster_api_control_plan.Controller.Run.{Reconciler}
use cluster_api_control_plan.Controller.ExternalReference.{
  external_cluster_reference, external_cluster_reference_cross_namespace, skip_infra_cluster_patch,
  dynamic_infrastructure_cluster_patch,
}
use cluster_api_control_plan.Startup.Calls.{
  FeatureSpec, Flags, Settings, Program, Host, ◌>>=◌, ◌>>◌, given,
}
use cluster_api_control_plan.Startup.Wiring.{
  indexers, setup_indexers, setup_kamaji_control_plane, setup_external_cluster_reference,
}

abbrev alpha : FeatureSpec
alpha = record { enabled_by_default = false; lock_to_default = false; is_alpha = true }

abbrev pub feature_specs : List (String × FeatureSpec)
feature_specs =
    (external_cluster_reference, alpha)
    ∷ (external_cluster_reference_cross_namespace, alpha)
    ∷ (skip_infra_cluster_patch, alpha)
    ∷ (dynamic_infrastructure_cluster_patch, alpha)
    ∷ []

abbrev pub default_flags : {M : Type 0} → M → Flags M
default_flags options = record {
  dynamic_infrastructure_clusters = [];
  metrics_bind_address = ":8080";
  health_probe_bind_address = ":8081";
  leader_elect = false;
  max_concurrent_reconciles = 1;
  manager_options = options;
}

-- len(dynamicInfraClusters) > 0
abbrev pub any_name : List String → Bool
any_name [] = false
any_name (x ∷ xs) = true

-- The address of `--metrics-bind-address` is not used.
abbrev pub settings_of : {M O : Type 0} → Flags M → O → Settings O
settings_of flags metrics = record {
  metrics = metrics;
  webhook_port = 9443;
  caches_unstructured = true;
  health_probe_bind_address = flags.health_probe_bind_address;
  leader_election = flags.leader_elect;
  leader_election_id = "kamaji.controlplane.cluster.x-k8s.io";
}

module _ {F : Foreign} (K : Kube F) (H : Host K) where
  -- The gates and the flags of the arguments.
  unfoldable pub parse_arguments : List String → Result (H.Gate × Flags H.ManagerOptions)
  parse_arguments arguments = elim (H.add_features H.new_feature_gate feature_specs) [
    | err e ↦ err e
    | ok gate ↦ H.parse arguments gate (default_flags H.zero_manager_options)
  ]

  unfoldable pub check_dynamic : H.Gate → List String → Result (Unit {0})
  check_dynamic gate names =
      if not (H.enabled gate dynamic_infrastructure_cluster_patch) && any_name names
      then err
          (new_error "cannot set dynamic infrastructure clusters when the feature flag is disabled")
      else ok tt

  -- The reconciler of KamajiControlPlanes, with the new store.
  abbrev pub reconciler_of : H.Gate → List String → Reconciler K
  reconciler_of gate names = record {
    enabled = H.enabled gate;
    dynamic_infrastructure_clusters = K.set_has (K.new_set names);
    store = new_store;
  }

  abbrev pub is_external : H.Gate → Bool
  is_external gate =
      H.enabled gate external_cluster_reference
      || H.enabled gate external_cluster_reference_cross_namespace

  -- The indexes and the controller of Secrets, if one of their gates is open.
  unfoldable pub setup_external : H.Gate → K.Manager → Program K.World (Unit {0})
  setup_external gate mgr =
      if is_external gate
      then setup_indexers K H indexers mgr >> setup_external_cluster_reference K H mgr
      else given (ok tt)

  -- From the manager on.
  unfoldable pub run_manager :
      H.Gate → Flags H.ManagerOptions → K.Manager → Program K.World (Unit {0})
  run_manager gate flags mgr = do
    setup_kamaji_control_plane K H (reconciler_of gate flags.dynamic_infrastructure_clusters)
        flags.max_concurrent_reconciles mgr
    setup_external gate mgr
    H.add_healthz_check mgr "healthz"
    H.add_readyz_check mgr "readyz"
    H.start mgr

  unfoldable pub main : List String → Program K.World (Unit {0})
  main arguments = do
    (gate, flags) ← given (parse_arguments arguments)
    metrics ← given (H.get_manager_options flags.manager_options)
    given (check_dynamic gate flags.dynamic_infrastructure_clusters)
    mgr ← H.new_manager (settings_of flags metrics)
    run_manager gate flags mgr
