-- ===== src/Tests/Controller.antt =====
-- The theorems on the controllers at concrete objects.
use cluster_api_control_plan.ExternalCluster.Names.{
  generate_key_name_from_kamaji, generate_remote_tenant_control_plane_names,
}
use cluster_api_control_plan.Kube.Laws.{timeless?}
use cluster_api_control_plan.Base.{
  ne-of_==, ◌≡◌, refl, ◌⊎◌, ◌∷◌, [], ◌==◌, ◌||◌, not, true, false, none, some, is_none, contains,
  lookup, arith,
}
use cluster_api_control_plan.ExternalCluster.Store.{get}
use cluster_api_control_plan.Base.Int.{pos}
use cluster_api_control_plan.GoNet.{err_range, has_char}
use cluster_api_control_plan.GoNet.Joining.{IsBare}
use cluster_api_control_plan.GoNet.Numbers.{decimal, decimal_from}
use cluster_api_control_plan.Errors.{ok, err, prefixed, number_error, new_error}
use cluster_api_control_plan.Objects.{KamajiControlPlane}
use cluster_api_control_plan.Kube.{text, number}
use cluster_api_control_plan.Controller.Run.{Reconciler, Run, Action}
use cluster_api_control_plan.Controller.Conditions.{
  track_condition_type, tenant_control_plane_created,
}
use cluster_api_control_plan.Controller.Conditions.Laws.{report, find-track}
use cluster_api_control_plan.Controller.ExternalReference.{
  extract_remote_client, external_cluster_reference,
}
use cluster_api_control_plan.Controller.ExternalReference.Laws.{
  IsExtracted, extract_remote_client-IsExtracted,
}
use cluster_api_control_plan.Controller.Finalizer.{ecr_finalizer, handle_finalizer, handle_deletion}
use cluster_api_control_plan.Controller.Finalizer.Laws.{
  IsSent, IsDeleted, handle_finalizer-IsSent, handle_deletion-IsDeleted,
}
use cluster_api_control_plan.Controller.ClusterPatch.Endpoint.{control_plane_endpoint}
use cluster_api_control_plan.Controller.ClusterPatch.Endpoint.Laws.{
  control_plane_endpoint-decimal, control_plane_endpoint-ingress,
}
use cluster_api_control_plan.Controller.ClusterPatch.Infrastructure.{
  set_generic_fields, check_endpoint,
}
use cluster_api_control_plan.Controller.ClusterPatch.Safety.{check-set_generic_fields}
use cluster_api_control_plan.Tests.Fixtures.{trivial, kcp, tenant, cluster, secret, ingress}
use cluster_api_control_plan.Tests.Memory.{
  Infra, World, memory, retry-IsLawful, sets-IsLawful, conditions-IsLawful, memory-IsLawfulObjects,
  retry, find, drop,
}

-- What an infrastructure provider has created.
abbrev infra : Infra
infra = record { endpoint = []; ready = false }

abbrev world : World
world = record {
  clock = 5;
  kcp = kcp;
  cluster = cluster;
  secret = secret;
  tenant = some tenant;
  infra = infra;
}

-- The external cluster is reached through a running manager.
abbrev reconciler : Reconciler memory
reconciler = record {
  enabled = λ gate. gate == external_cluster_reference;
  dynamic_infrastructure_clusters = λ kind. false;
  store = record {
    store = ("ns/kc/conf", record { resource_version = "7"; manager = true; stop_func = 1 }) ∷ [];
    stopped = [];
  };
}

extract_remote_client_run : extract_remote_client memory reconciler kcp world ≡ (ok true, world)
unfolding extract_remote_client get lookup generate_key_name_from_kamaji
extract_remote_client_run = refl

extract_remote_client-IsExtracted_example : IsExtracted memory reconciler kcp world true world
extract_remote_client-IsExtracted_example =
    extract_remote_client-IsExtracted memory reconciler kcp world extract_remote_client_run

-- An object with the finalizer, being deleted.
abbrev leaving : KamajiControlPlane trivial
leaving = record kcp { meta = record kcp.meta { finalizers = "a" ∷ ecr_finalizer ∷ [] } }

abbrev left : KamajiControlPlane trivial
left = record kcp { meta = record kcp.meta { finalizers = "a" ∷ [] } }

abbrev leaving_world : World
leaving_world = record world { kcp = leaving }

handle_deletion_run :
    handle_deletion memory reconciler leaving leaving_world
    ≡ (ok tt, record world { kcp = left; tenant = none })
unfolding handle_deletion contains retry drop extract_remote_client get
    generate_remote_tenant_control_plane_names lookup generate_key_name_from_kamaji
handle_deletion_run = refl

handle_deletion-IsDeleted_example :
    (((not (contains ecr_finalizer leaving.meta.finalizers)
          || is_none leaving.spec.deployment.external_cluster_reference)
        ≡ true)
      × (record world { kcp = left; tenant = none } ≡ leaving_world))
    ⊎ ((client : memory.Client) × (w1 : memory.World) × (extract_remote_client memory reconciler
            leaving leaving_world
          ≡ (ok client, w1))
        × IsDeleted memory leaving client w1 (record world { kcp = left; tenant = none }))
handle_deletion-IsDeleted_example =
    handle_deletion-IsDeleted memory sets-IsLawful retry-IsLawful reconciler leaving leaving_world
      handle_deletion_run

abbrev guarded : KamajiControlPlane trivial
guarded = record kcp { meta = record kcp.meta { finalizers = ecr_finalizer ∷ [] } }

handle_finalizer_run :
    handle_finalizer memory kcp world ≡ (ok tt, (guarded, record world { kcp = guarded }))
unfolding handle_finalizer contains retry
handle_finalizer_run = refl

handle_finalizer-IsSent_example :
    ((contains ecr_finalizer kcp.meta.finalizers ≡ true)
      × (guarded ≡ kcp)
      × (record world { kcp = guarded } ≡ world))
    ⊎ IsSent memory
        (λ fresh x. ecr_finalizer == x || contains x kcp.meta.finalizers)
        guarded
        (record world { kcp = guarded })
handle_finalizer-IsSent_example =
    handle_finalizer-IsSent memory sets-IsLawful retry-IsLawful kcp world handle_finalizer_run

IsBare-host : IsBare "10.0.0.1"
unfolding has_char
IsBare-host = record { no_colon = refl; no_open = refl; no_close = refl }

IsBare-ingress : IsBare "cp.example.com"
unfolding has_char
IsBare-ingress = record { no_colon = refl; no_open = refl; no_close = refl }

port_6443 : decimal "6443" ≡ some 6443
unfolding decimal decimal_from
port_6443 = refl

port_40000 : decimal "40000" ≡ some 40000
unfolding decimal decimal_from
port_40000 = refl

-- A valid port that is refused.
control_plane_endpoint-decimal_example :
    control_plane_endpoint kcp "10.0.0.1:40000"
    ≡ err (prefixed "cannot convert port to integer: " (number_error err_range "40000"))
control_plane_endpoint-decimal_example =
    control_plane_endpoint-decimal kcp "10.0.0.1" "40000" 40000 IsBare-host port_40000

control_plane_endpoint-ingress_example :
    control_plane_endpoint kcp "10.0.0.1:6443" ≡ ok ("cp.example.com", pos 443)
control_plane_endpoint-ingress_example =
    control_plane_endpoint-ingress kcp ingress "10.0.0.1" "6443" 6443 IsBare-host port_6443
      (omega arith) refl (ne-of_== ingress.hostname "" refl) IsBare-ingress

abbrev served : Infra
served = record {
  endpoint = ("host", text "cp.example.com") ∷ ("port", number (pos 443)) ∷ [];
  ready = true;
}

set_generic_fields_run : set_generic_fields memory infra "cp.example.com" (pos 443) true ≡ ok served
unfolding set_generic_fields
set_generic_fields_run = refl

check-set_generic_fields_example : check_endpoint memory served "cp.example.com" (pos 443) ≡ ok tt
check-set_generic_fields_example =
    check-set_generic_fields memory memory-IsLawfulObjects infra served "cp.example.com" (pos 443)
      true (ne-of_== "cp.example.com" "" refl) set_generic_fields_run

abbrev run : Run memory
run = record { world = world; kcp = kcp; conditions = [] }

abbrev fails : Action memory (Unit {0})
fails run = (err (new_error "no datastore"), run)

find-track_example :
    timeless? (
      find
        (track_condition_type memory tenant_control_plane_created 3 fails run).1.conditions
        tenant_control_plane_created)
    ≡ some (report tenant_control_plane_created 3 (fails run).0)
find-track_example =
    find-track memory conditions-IsLawful tenant_control_plane_created 3 fails run
      tenant_control_plane_created
