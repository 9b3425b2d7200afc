-- ===== src/Tests/Startup.antt =====
-- A process whose arguments are the names of the open gates.
use cluster_api_control_plan.Base.{◌≡◌, refl, String, true, false, List, [], ◌∷◌, contains, lookup}
use cluster_api_control_plan.Errors.{ok, is_ok}
use cluster_api_control_plan.GoNet.{has_char}
use cluster_api_control_plan.Objects.{Cluster}
use cluster_api_control_plan.ExternalCluster.Names.{
  kubeconfig_namespace, generate_key_name_from_kamaji, generate_key_name_from_secret,
  index_secret_by_key,
}
use cluster_api_control_plan.ExternalCluster.Store.{get}
use cluster_api_control_plan.Controller.Run.{Reconciler}
use cluster_api_control_plan.Controller.ExternalReference.{
  extract_remote_client, client_of_reference, client_of_secret, client_of_entry, client_of_manager,
}
use cluster_api_control_plan.Controller.ClusterPatch.Infrastructure.{patch_cluster}
use cluster_api_control_plan.Startup.{
  Host, main, run_manager, parse_arguments, check_dynamic, setup_external, setup_indexers,
  setup_kamaji_control_plane, setup_external_cluster_reference, reconciler_of, default_flags,
  requests_of_kamaji,
}
use cluster_api_control_plan.Startup.Laws.{IsExternal, main-unsupported, main-IsExternal}
use cluster_api_control_plan.Startup.Watches.{IsIndexed, requests_of_kamaji-eq}
use cluster_api_control_plan.Tests.Fixtures.{kcp, cluster, secret, reference}
use cluster_api_control_plan.Tests.Memory.{memory, sets-IsLawful}
use cluster_api_control_plan.Tests.Managers.{world}

abbrev host : Host memory
host = record {
  Gate = List String;
  new_feature_gate = [];
  add_features = λ gate specs. ok gate;
  enabled = λ gate name. contains name gate;
  ManagerOptions = Unit;
  zero_manager_options = tt;
  MetricsOptions = Unit;
  parse = λ arguments gate flags. ok (arguments, flags);
  get_manager_options = λ options. ok tt;
  new_manager = λ settings w. (ok true, w);
  ClientSet = Unit;
  new_for_config = λ mgr. ok tt;
  tenant_resources = λ cs w. (ok tt, w);
  complete = λ mgr controller w. (ok tt, w);
  index_field = λ mgr indexer w. (ok tt, w);
  add_healthz_check = λ mgr name w. (ok tt, w);
  add_readyz_check = λ mgr name w. (ok tt, w);
  start = λ mgr w. (ok tt, w);
}

abbrev gates : List String
gates = "ExternalClusterReference" ∷ []

serves : main memory host gates world ≡ (ok tt, world)
unfolding main run_manager parse_arguments check_dynamic setup_external setup_indexers
    setup_kamaji_control_plane setup_external_cluster_reference contains
serves = refl

parses : parse_arguments memory host gates ≡ ok (gates, default_flags tt)
unfolding parse_arguments
parses = refl

closed : host.enabled gates "DynamicInfrastructureClusterPatch" ≡ false
unfolding contains
closed = refl

abbrev unsupported : Cluster
unsupported = record cluster {
  infrastructure_ref = record cluster.infrastructure_ref { kind = "OtherCluster" };
}

main-unsupported_example :
    (is_ok (patch_cluster memory (reconciler_of memory host gates []) unsupported kcp "h:1" world).0
      ≡ false)
    × ((patch_cluster memory (reconciler_of memory host gates []) unsupported kcp "h:1" world).1
        ≡ world)
main-unsupported_example =
    main-unsupported memory host sets-IsLawful gates world gates (default_flags tt) unsupported kcp
      "h:1" world serves parses closed refl

-- After the pass over the Secret.
abbrev reconciler : Reconciler memory
reconciler = record {
  enabled = λ name. contains name gates;
  dynamic_infrastructure_clusters = λ kind. false;
  store = record {
    store = ("ns/kc/conf", record { resource_version = "7"; manager = true; stop_func = 9 }) ∷ [];
    stopped = [];
  };
}

extracts : extract_remote_client memory reconciler kcp world ≡ (ok true, world)
unfolding extract_remote_client client_of_reference client_of_secret client_of_entry
    client_of_manager kubeconfig_namespace generate_key_name_from_kamaji get lookup contains
extracts = refl

main-IsExternal_example : IsExternal memory host gates (default_flags tt) world world
main-IsExternal_example =
    main-IsExternal memory host gates world gates (default_flags tt) reconciler kcp world serves
      parses refl extracts

indexed : IsIndexed "ns/kc/conf" secret
unfolding index_secret_by_key generate_key_name_from_secret contains has_char
indexed = record {
  has_key = refl;
  are_plain = (record { namespace_plain = refl; name_plain = refl; key_plain = refl }, tt);
}

requests_of_kamaji-eq_example :
    requests_of_kamaji memory kcp world
    ≡ (ok (record { namespace = "ns"; name = "kc" } ∷ []), world)
unfolding kubeconfig_namespace has_char
requests_of_kamaji-eq_example =
    requests_of_kamaji-eq memory kcp reference (secret ∷ []) world world refl
      (record { namespace_plain = refl; name_plain = refl; key_plain = refl }) refl (indexed, tt)
