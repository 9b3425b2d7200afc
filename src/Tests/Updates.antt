-- ===== src/Tests/Updates.antt =====
-- The theorems on updates of a KamajiControlPlane at a concrete object.
use cluster_api_control_plan.Base.{◌≡◌, refl, [], some, true, String}
use cluster_api_control_plan.Base.Int.{ℤ}
use cluster_api_control_plan.Errors.{ok}
use cluster_api_control_plan.GoNet.{
  has_char, split_host_port, bracketed, after_bracket, plain, split_first, split_last, parse_int,
  split,
}
use cluster_api_control_plan.Objects.{set_control_plane_initialized}
use cluster_api_control_plan.Controller.Run.{Run, update_kamaji_control_plane_status}
use cluster_api_control_plan.Controller.Run.Laws.{
  IsUpdated, update_kamaji_control_plane_status-IsUpdated,
}
use cluster_api_control_plan.Controller.ClusterPatch.Endpoint.{
  control_plane_endpoint, parse_endpoint, overridden, override_hostname, with_default_port,
  patch_control_plane_endpoint,
}
use cluster_api_control_plan.Controller.ClusterPatch.Endpoint.Publication.{
  IsPublished, patch_control_plane_endpoint-IsPublished,
}
use cluster_api_control_plan.Tests.Fixtures.{kcp, tenant, cluster, secret}
use cluster_api_control_plan.Tests.Memory.{memory, retry, retry-IsLawful}

abbrev run : Run memory
run = record {
  world = record {
    clock = 5;
    kcp = kcp;
    cluster = cluster;
    secret = secret;
    tenant = some tenant;
    infra = record { endpoint = []; ready = true };
  };
  kcp = kcp;
  conditions = [];
}

abbrev initialized : Run memory
initialized = (update_kamaji_control_plane_status memory (set_control_plane_initialized true) run).1

run_of_status :
    update_kamaji_control_plane_status memory (set_control_plane_initialized true) run
    ≡ (ok tt, initialized)
unfolding update_kamaji_control_plane_status retry
run_of_status = refl

update_kamaji_control_plane_status-IsUpdated_example :
    IsUpdated memory (set_control_plane_initialized true) initialized.kcp initialized.world
    × (initialized.conditions ≡ [])
update_kamaji_control_plane_status-IsUpdated_example =
    update_kamaji_control_plane_status-IsUpdated memory retry-IsLawful
      (set_control_plane_initialized true) run run_of_status

abbrev published : Run memory
published = (patch_control_plane_endpoint memory "10.0.0.1:6443" run).1

run_of_endpoint : patch_control_plane_endpoint memory "10.0.0.1:6443" run ≡ (ok tt, published)
unfolding patch_control_plane_endpoint control_plane_endpoint parse_endpoint overridden
    override_hostname with_default_port retry has_char split_host_port bracketed after_bracket plain
    split_first split_last parse_int split
run_of_endpoint = refl

patch_control_plane_endpoint-IsPublished_example :
    (host : String) × (port : ℤ) × (control_plane_endpoint kcp "10.0.0.1:6443" ≡ ok (host, port))
    × IsPublished memory host port published.kcp published.world
patch_control_plane_endpoint-IsPublished_example =
    patch_control_plane_endpoint-IsPublished memory retry-IsLawful "10.0.0.1:6443" run
      run_of_endpoint
