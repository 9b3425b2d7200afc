-- ===== src/Tests/Managers.antt =====
-- The theorems on the managers of other clusters and on the replicated Secrets at concrete objects.
use cluster_api_control_plan.Controller.Managers.{
  manager_failed, on_store, Process, referenced_keys, load_key, load_keys, make_manager,
  reconcile_found,
}
use cluster_api_control_plan.Controller.Managers.References.{Listing}
use cluster_api_control_plan.Controller.Managers.Laws.{
  manager_failed-order, reconcile_found-running,
}
use cluster_api_control_plan.Base.{
  ◌≡◌, refl, String, ◌∷◌, [], List, true, false, none, some, contains, lookup, entries, ◌⊎◌,
  ne-of_==,
}
use cluster_api_control_plan.Errors.{ok}
use cluster_api_control_plan.Objects.{Secret, Bytes}
use cluster_api_control_plan.GoNet.{split}
use cluster_api_control_plan.ExternalCluster.Names.{
  generate_key_name_from_secret, generate_remote_tenant_control_plane_names,
}
use cluster_api_control_plan.ExternalCluster.Store.{get, stop, add, new_store}
use cluster_api_control_plan.Controller.Push.{push_reconcile, push_reconcile-events}
use cluster_api_control_plan.Controller.Resources.{
  kubeconfig_key, mutate_kubeconfig, mutate_ca, owned_by_tenant, own_secret,
}
use cluster_api_control_plan.Controller.Resources.Laws.{
  mutate_kubeconfig-contents, mutate_ca-contents,
}
use cluster_api_control_plan.Tests.Fixtures.{kcp, tenant, cluster, secret}
use cluster_api_control_plan.Tests.Memory.{World, memory}

abbrev pub world : World
world = record {
  clock = 5;
  kcp = kcp;
  cluster = cluster;
  secret = secret;
  tenant = some tenant;
  infra = record { endpoint = []; ready = false };
}

abbrev pub begun : Process memory
begun = record { world = world; store = new_store; starting = [] }

abbrev pub running : Process memory
running = (reconcile_found memory secret begun).1

pub loaded : reconcile_found memory secret begun ≡ (ok tt, running)
unfolding reconcile_found referenced_keys generate_key_name_from_secret load_keys load_key get stop
    add make_manager split lookup
loaded = refl

reconcile_found-running_example :
    (used : List String) × (w : memory.World) × Listing memory
      (generate_key_name_from_secret secret)
      begun.world
      used
      w
    × ((key : String)
        → contains key (generate_key_name_from_secret secret) ≡ true
        → (contains key used ≡ true → (get key secret.meta.resource_version running.store).1 ≡ true)
          × (contains key used ≡ false → lookup key running.store.store ≡ none))
reconcile_found-running_example = reconcile_found-running memory secret begun loaded

names : generate_remote_tenant_control_plane_names kcp ≡ ok ("kcp-u1", "tenants")
unfolding generate_remote_tenant_control_plane_names
names = refl

push_reconcile-events_example :
    push_reconcile memory true (record { namespace = "tenants"; name = "kcp-u1" }) world
    ≡ (ok tt, (record { namespace = "ns"; name = "demo" } ∷ [], world))
push_reconcile-events_example =
    push_reconcile-events memory true (record { namespace = "tenants"; name = "kcp-u1" }) world
      world world tenant kcp "tenants" (kcp ∷ []) refl names (ne-of_== "u1" "" refl) refl

abbrev source : Secret
source = record secret {
  contents = some (("admin.conf", some "k") ∷ ("ca.crt", some "c") ∷ ("ca.key", some "p") ∷ []);
}

abbrev kubeconfig : Secret
kubeconfig = (mutate_kubeconfig memory cluster kcp tenant source (secret, tt)).1.0

kubeconfig_made :
    mutate_kubeconfig memory cluster kcp tenant source (secret, tt) ≡ (ok tt, (kubeconfig, tt))
unfolding mutate_kubeconfig kubeconfig_key lookup own_secret
kubeconfig_made = refl

mutate_kubeconfig-contents_example :
    (value : Bytes) × (lookup (kubeconfig_key memory kcp) (entries source.contents) ≡ some value)
    × (kubeconfig.contents ≡ some (("value", value) ∷ []))
    × (kubeconfig.kind ≡ memory.cluster_secret_type)
mutate_kubeconfig-contents_example =
    mutate_kubeconfig-contents memory cluster kcp tenant source secret kubeconfig_made

abbrev authority : Secret × Secret
authority = (mutate_ca memory cluster kcp tenant (secret, source)).1

authority_made : mutate_ca memory cluster kcp tenant (secret, source) ≡ (ok tt, authority)
unfolding mutate_ca lookup own_secret
authority_made = refl

mutate_ca-contents_example :
    ((owned_by_tenant secret.meta.owner_references ≡ true)
      × (authority.0 ≡ secret)
      × (authority.1 ≡ source))
    ⊎ ((crt key : Bytes) × (lookup "ca.crt" (entries source.contents) ≡ some crt)
        × (lookup "ca.key" (entries source.contents) ≡ some key)
        × (lookup memory.tls_cert_key (entries authority.0.contents) ≡ some crt)
        × (lookup memory.tls_private_key_key (entries authority.0.contents) ≡ some key)
        × (authority.0.kind ≡ memory.cluster_secret_type))
mutate_ca-contents_example =
    mutate_ca-contents memory cluster kcp tenant secret source refl authority_made

-- The first manager of the key, with cancel function 9.
manager_failed-order_example :
    let after = manager_failed memory "k" (on_store memory (add "k" "7" true 9) begun) in
    let before = on_store memory (add "k" "7" true 9) (manager_failed memory "k" begun) in
    (lookup "k" after.store.store ≡ none)
    × (after.store.stopped ≡ 9 ∷ [])
    × (get "k" "7" before.store ≡ (some true, true))
    × (before.store.stopped ≡ [])
unfolding lookup
manager_failed-order_example = manager_failed-order memory "k" "7" true 9 begun refl
