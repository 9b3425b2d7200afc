-- ===== src/Tests/Reconcile.antt =====
-- A reconciliation from end to end.
use cluster_api_control_plan.Controller.Reconcile.{
  reconcile, reconcile_object, reconcile_cluster, settle_steps, finished, reconcile_normal, Flow,
  next, steps, report_steps, remote_step, tenant_step, address_step, endpoint_step, cluster_step,
  infrastructure_step, wait_step, initialize_step, initialized_step, scale_step, confirm_step,
  resources_step, ready_step, tracked, report_ready, set_available, on_error, failed, with_ready,
  requeue_after,
}
use cluster_api_control_plan.Tests.Memory.{
  conditions-IsLawful, remove, find, set, World, memory, retry,
}
use cluster_api_control_plan.Controller.Reconcile.Success.{
  start, IsGone, reconcile_normal-IsComplete,
}
use cluster_api_control_plan.Base.{◌⊎◌, ◌≡◌, refl, ◌∷◌, [], false, none, some, ◌==◌, lookup}
use cluster_api_control_plan.GoNet.{
  has_char, split_host_port, bracketed, after_bracket, plain as plain_address, split_first,
  split_last, parse_int,
}
use cluster_api_control_plan.Controller.Tenant.{
  with_core_dns_default, tenant_meta, create_or_update_tenant_control_plane, renamed, mutate,
  check_sans, set_owner,
}
use cluster_api_control_plan.Objects.{
  ObjectKey, Cluster, version_other, set_control_plane_initialized, is_control_plane_initialized,
  KamajiControlPlane,
}
use cluster_api_control_plan.Controller.ExternalReference.{skip_infra_cluster_patch}
use cluster_api_control_plan.Controller.Reconcile.Completion.{IsComplete}
use cluster_api_control_plan.Tests.Fixtures.{
  trivial, kcp, kcp_fields, network, deployment, tenant, cluster, secret,
}
use cluster_api_control_plan.Controller.Run.{
  Run, Reconciler, update_kamaji_control_plane_status, status_attempt,
}
use cluster_api_control_plan.Controller.Conditions.{
  track_condition_type, kamaji_control_plane_ready,
}
use cluster_api_control_plan.Controller.Conditions.Laws.{report}
use cluster_api_control_plan.Kube.Laws.{timeless?}
use cluster_api_control_plan.Controller.Reconcile.Settled.{Settled, reconcile-Settled}
use cluster_api_control_plan.Controller.Reconcile.Readiness.{ready_step-report}
use cluster_api_control_plan.Controller.ClusterPatch.Endpoint.{
  patch_control_plane_endpoint, control_plane_endpoint, parse_endpoint, override_hostname,
  overridden,
}
use cluster_api_control_plan.Controller.Resources.{
  create_required_resources, create_or_update_kubeconfig, create_or_update_certificate_authority,
  mutate_kubeconfig, mutate_ca, kubeconfig_key, own_secret,
}

-- In the same cluster, with no Ingress and no Gateway.
abbrev plain : KamajiControlPlane trivial
plain = record kcp {
  meta = record kcp.meta {
    owner_references = record { kind = "Cluster"; name = "demo"; uid = "c1" } ∷ [];
  };
  spec = record kcp.spec {
    fields = record kcp_fields {
      network = record network { ingress = none; gateway = none; cert_sans = [] };
      deployment = record deployment { external_cluster_reference = none };
    };
  };
}

abbrev reconciler : Reconciler memory
reconciler = record {
  enabled = λ gate. gate == skip_infra_cluster_patch;
  dynamic_infrastructure_clusters = λ kind. false;
  store = record { store = []; stopped = [] };
}

abbrev world : World
world = record {
  clock = 5;
  kcp = plain;
  cluster = cluster;
  secret = record secret {
    meta = record secret.meta { namespace = "tenants"; name = "admin" };
    contents = some (("admin.conf", some "k") ∷ ("ca.crt", some "c") ∷ ("ca.key", some "p") ∷ []);
  };
  tenant = some (record tenant { status = record tenant.status { ca_secret_name = "admin" } });
  infra = record { endpoint = []; ready = false };
}

abbrev finish : Flow (Unit {0}) × Run memory
finish = steps memory reconciler cluster (start memory plain world)

goes_on : finish.0 ≡ next tt
unfolding steps report_steps settle_steps remote_step tenant_step address_step endpoint_step
    cluster_step infrastructure_step wait_step initialize_step initialized_step scale_step
    confirm_step resources_step ready_step tracked track_condition_type
    create_or_update_tenant_control_plane retry renamed mutate check_sans set_owner
    patch_control_plane_endpoint control_plane_endpoint parse_endpoint split_host_port bracketed
    after_bracket plain_address split_first split_last parse_int override_hostname overridden
    update_kamaji_control_plane_status status_attempt is_control_plane_initialized
    set_control_plane_initialized create_required_resources create_or_update_kubeconfig
    create_or_update_certificate_authority mutate_kubeconfig mutate_ca kubeconfig_key own_secret
    lookup report_ready set_available has_char with_core_dns_default find set remove tenant_meta
goes_on = refl

reports_success : (reconcile_normal memory reconciler cluster plain world).0 ≡ finished
unfolding reconcile_normal
reports_success = rw goes_on refl

reconcile_normal-IsComplete_example :
    IsComplete memory reconciler cluster (start memory plain world) finish.1
    ⊎ IsGone memory reconciler cluster (start memory plain world)
reconcile_normal-IsComplete_example =
    reconcile_normal-IsComplete memory reconciler cluster plain world reports_success

-- Kamaji's version status is one that counts as not ready.
ready_step-report_example :
    ((ready_step memory (version_other "NotReady") (start memory plain world)).0
      ≡ on_error failed
          (update_kamaji_control_plane_status memory
            (with_ready memory (version_other "NotReady"))
            (start memory plain world)).0)
    × (timeless? (
          memory.find_status_condition
            (ready_step memory (version_other "NotReady") (start memory plain world)).1.conditions
            kamaji_control_plane_ready)
        ≡ some (
            report kamaji_control_plane_ready 3
              (report_ready memory (version_other "NotReady") (start memory plain world)).0))
ready_step-report_example =
    ready_step-report memory conditions-IsLawful (version_other "NotReady")
      (start memory plain world)

-- The infrastructure of the Cluster is not provisioned.
abbrev unprovisioned : Cluster
unprovisioned = record cluster { infrastructure_provisioned = none }

abbrev unprovisioned_world : World
unprovisioned_world = record world { cluster = unprovisioned }

-- Such a reconciliation stops and asks to wait.
waits :
    (reconcile_normal memory reconciler unprovisioned plain unprovisioned_world).0 ≡ requeue_after 1
unfolding reconcile_normal steps report_steps settle_steps remote_step tenant_step address_step
    endpoint_step cluster_step infrastructure_step wait_step initialize_step initialized_step
    scale_step confirm_step resources_step ready_step tracked track_condition_type
    create_or_update_tenant_control_plane retry renamed mutate check_sans set_owner
    patch_control_plane_endpoint control_plane_endpoint parse_endpoint split_host_port bracketed
    after_bracket plain_address split_first split_last parse_int override_hostname overridden
    update_kamaji_control_plane_status status_attempt is_control_plane_initialized
    set_control_plane_initialized create_required_resources create_or_update_kubeconfig
    create_or_update_certificate_authority mutate_kubeconfig mutate_ca kubeconfig_key own_secret
    lookup report_ready set_available has_char with_core_dns_default find set remove tenant_meta
waits = refl

abbrev request : ObjectKey
request = record { namespace = "ns"; name = "demo" }

settles : (reconcile memory reconciler request world).0 ≡ finished
unfolding reconcile reconcile_object reconcile_cluster
settles = reports_success

reconcile-Settled_example : Settled memory reconciler request world
reconcile-Settled_example = reconcile-Settled memory reconciler request world settles
