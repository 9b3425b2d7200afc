-- ===== src/Controller/Reconcile/Progress.antt =====
-- What a pass of `Reconcile` asks of the servers.
pub mod Chain
pub mod Updates
pub mod Remote
pub mod Upserts
pub mod Infrastructure
pub mod Steps
pub mod Report
pub mod Pass
pub mod Deletion
pub mod Joint
use cluster_api_control_plan.Base.{
  String, ◌==◌, ◌≡◌, ◌≢◌, Bool, true, false, Option, none, some, List, [], ◌∷◌, Entries, entries,
  lookup, ◌⊎◌,
}
use cluster_api_control_plan.Errors.{Result, ok}
use cluster_api_control_plan.Objects.{
  Foreign, KamajiControlPlane, TenantControlPlane, Cluster, Secret, ObjectKey, ObjectMeta,
  OwnerReference, NetworkComponent, ObjectReference, version_ready, key_of, Bytes,
  ExternalClusterReference,
}
use cluster_api_control_plan.Kube.{Kube, Nested, flag}
use cluster_api_control_plan.Controller.ClusterPatch.Infrastructure.{way_of, cases, patch_generic}
use cluster_api_control_plan.Kube.Laws.{IsLawfulRetry, IsLawfulConditions}
use cluster_api_control_plan.Controller.Resources.{kubeconfig_key, reader_of}
use cluster_api_control_plan.Controller.Reconcile.Steps.{deref}
use cluster_api_control_plan.Controller.Tenant.{check_sans, client_or_local}
use cluster_api_control_plan.Controller.Run.{Reconciler}
use cluster_api_control_plan.Controller.ExternalReference.{
  skip_infra_cluster_patch, external_cluster_reference, external_cluster_reference_cross_namespace,
  value_or_nil,
}
use cluster_api_control_plan.ExternalCluster.Names.{kubeconfig_namespace, key_name}
use cluster_api_control_plan.ExternalCluster.Store.{get}

-- What nobody changes while the pass runs: the object's key, its reference to another cluster, its
-- network, the key of its kubeconfig, what the TenantControlPlane shows, and where the infrastructure of the Cluster is.
pub record Fixed (F : Foreign) : Type 0 where
  pub key : ObjectKey
  pub reference : Option ExternalClusterReference
  pub network : NetworkComponent F
  pub kubeconfig : String
  pub endpoint : String
  pub tenant_namespace : String
  pub admin_secret : String
  pub ca_secret : String
  pub infrastructure : ObjectReference
  pub cluster_namespace : String

module _ {F : Foreign} (K : Kube F) (a : Fixed F) where
  pub record IsFit (kcp : KamajiControlPlane F) : Type 0 where
    pub has_key : key_of kcp.meta ≡ a.key
    pub has_network : kcp.spec.network ≡ a.network
    pub has_kubeconfig : kubeconfig_key K kcp ≡ a.kubeconfig
    pub has_reference : kcp.spec.deployment.external_cluster_reference ≡ a.reference

  -- Kamaji has made the control plane.
  pub record IsPublished (tcp : TenantControlPlane F) : Type 0 where
    pub has_endpoint : tcp.status.control_plane_endpoint ≡ a.endpoint
    pub has_version : tcp.status.version_status ≡ some version_ready
    pub in_namespace : tcp.meta.namespace ≡ a.tenant_namespace
    pub has_admin : tcp.status.admin_secret_name ≡ a.admin_secret
    pub has_ca : tcp.status.ca_secret_name ≡ a.ca_secret

  pub record IsProvisioned (cluster : Cluster) : Type 0 where
    pub has_host : (cluster.control_plane_endpoint.host == "") ≡ false
    pub is_provisioned : deref cluster.infrastructure_provisioned ≡ true
    pub has_infrastructure : cluster.infrastructure_ref ≡ a.infrastructure
    pub in_namespace : cluster.meta.namespace ≡ a.cluster_namespace

  module _ (Good : K.World → Type 0) where
    -- A call that is answered with such a value, and leaves a good world.
    abbrev pub Answers : {A : Type 0} → Result A × K.World → (A → Type 0) → Type 0
    Answers {A} call P = (x : A) × (w' : K.World) × (call ≡ (ok x, w')) × P x × Good w'

    -- The infrastructure cluster is of a kind that patchGenericCluster serves, and is patched. An
    -- object is one whose `spec` and `status`, if there, are maps.
    pub record IsPatchable (IsObject : K.Unstructured → Type 0) : Type 0 where
      pub patches_status : Bool
      pub is_defined : K.is_defined a.infrastructure ≡ true
      pub has_way : way_of a.infrastructure.kind cases ≡ some (patch_generic patches_status)
      pub maps :
          (w : K.World)
          → Good w
          → Answers (K.rest_mapping a.infrastructure.api_group a.infrastructure.kind w) (λ gvk.
            (w : K.World)
            → Good w
            → Answers
                (K.get_unstructured gvk
                  (record { namespace = a.cluster_namespace; name = a.infrastructure.name })
                  w)
                IsObject)
      pub helps : (u : K.Unstructured) → IsObject u → (h : K.Helper) × (K.new_helper u ≡ ok h)
      pub sets_map :
          (u : K.Unstructured) (fields : Entries Nested) (path : List String)
          → IsObject u
          → (u' : K.Unstructured) × (K.set_nested_map u fields ("spec" ∷ path) ≡ ok u')
            × IsObject u'
      pub sets_ready :
          (u : K.Unstructured)
          → IsObject u
          → (u' : K.Unstructured) × (K.set_nested_field u (flag true) ("status" ∷ "ready" ∷ [])
              ≡ ok u')
      pub patches :
          (h : K.Helper) (u : K.Unstructured) (w : K.World)
          → Good w
          → Answers (K.patch h u w) (λ _. Unit)

    -- The Secret of a reference is read, the store runs a manager for its entry, and the cluster of
    -- the manager knows TenantControlPlanes.
    pub record IsHosted (r : Reconciler K) (client : K.Client) : Type 0 where
      pub ref : ExternalClusterReference
      pub manager : K.Manager
      pub refers : a.reference ≡ some ref
      pub gate_open : r.enabled external_cluster_reference ≡ true
      pub is_confined :
          r.enabled external_cluster_reference_cross_namespace ≡ false
          → kubeconfig_namespace a.key.namespace ref ≡ a.key.namespace
      pub reads_reference :
          (w : K.World)
          → Good w
          → Answers
              (K.get_secret K.local
                (record {
                  namespace = kubeconfig_namespace a.key.namespace ref;
                  name = ref.kubeconfig_secret_name;
                })
                w)
              (λ secret.
                (value_or_nil (lookup ref.kubeconfig_secret_key (entries secret.contents)) ≢ none)
                × (get
                      (key_name
                        (kubeconfig_namespace a.key.namespace ref)
                        ref.kubeconfig_secret_name
                        ref.kubeconfig_secret_key)
                      secret.meta.resource_version
                      r.store
                    ≡ (some manager, true)))
      pub knows_tenants :
          (w : K.World) → Good w → Answers (K.kind_for_tenants manager w) (λ _. Unit)
      pub is_client : K.get_client manager ≡ client

    -- Where the TenantControlPlane is: in the same cluster, or in the one of a client.
    abbrev pub IsReached : Reconciler K → Option K.Client → Type 0
    IsReached r none = a.reference ≡ none
    IsReached r (some client) = IsHosted r client

    -- In a good world the servers answer, and stay good; an object that may be owned gets its owner;
    -- `CreateOrUpdate` succeeds with a closure that does so on any object that may be owned.
    pub record IsServed (remote : Option K.Client) (IsFree : List OwnerReference → Type 0)
        (cluster : Cluster) : Type 1 where
      pub retries : IsLawfulRetry K.retry_on_conflict
      pub ticks : (w : K.World) → Good w → Good (K.now w).1
      pub reads : (w : K.World) → Good w → Answers (K.get_kcp a.key w) IsFit
      pub updates :
          (w : K.World) (sent : KamajiControlPlane F)
          → Good w
          → IsFit sent
          → Answers (K.update_kcp sent w) IsFit
      pub updates_status :
          (w : K.World) (sent : KamajiControlPlane F)
          → Good w
          → IsFit sent
          → Answers (K.update_kcp_status sent w) (λ kcp. IsFit kcp × (kcp.status ≡ sent.status))
      pub reads_cluster :
          (w : K.World) → Good w → Answers (K.get_cluster (key_of cluster.meta) w) IsProvisioned
      pub reads_admin :
          (w : K.World)
          → Good w
          → Answers
              (K.get_secret
                (reader_of K remote)
                (record { namespace = a.tenant_namespace; name = a.admin_secret })
                w)
              (λ secret. (v : Bytes) × (lookup a.kubeconfig (entries secret.contents) ≡ some v))
      pub reads_ca :
          (w : K.World)
          → Good w
          → Answers
              (K.get_secret
                (reader_of K remote)
                (record { namespace = a.tenant_namespace; name = a.ca_secret })
                w)
              (λ secret.
                (crt : Bytes) × (key : Bytes) × (lookup "ca.crt" (entries secret.contents)
                  ≡ some crt)
                × (lookup "ca.key" (entries secret.contents) ≡ some key))
      pub owns :
          (kcp : KamajiControlPlane F) (m : ObjectMeta)
          → IsFit kcp
          → IsFree m.owner_references
          → (m' : ObjectMeta) × (K.set_controller_reference kcp K.local m ≡ ok m')
      pub upserts_tenant :
          (S : Type 0)
          (f : TenantControlPlane F × S → Result (Unit {0}) × (TenantControlPlane F × S))
          (new : TenantControlPlane F) (s : S) (w : K.World)
          → Good w
          → ((tcp : TenantControlPlane F)
              → IsFree tcp.meta.owner_references
              → (f (tcp, s)).0 ≡ ok tt)
          → (old : TenantControlPlane F) × (tcp : TenantControlPlane F) × (w' : K.World)
            × (K.create_or_update_tenant S (client_or_local K remote) f (new, s) w
                ≡ (ok tt, (tcp, (f (old, s)).1.1), w'))
            × IsPublished tcp
            × Good w'
      pub upserts_secret :
          (S : Type 0) (f : Secret × S → Result (Unit {0}) × (Secret × S)) (new : Secret) (s : S)
          (w : K.World)
          → Good w
          → ((secret : Secret) → IsFree secret.meta.owner_references → (f (secret, s)).0 ≡ ok tt)
          → (x : Secret × S) × (w' : K.World) × (K.create_or_update_secret S K.local f (new, s) w
              ≡ (ok tt, x, w'))
            × Good w'

    -- What the pass needs besides: the object's SANs have no port, Kamaji has published an address
    -- and named its Secrets, and the infrastructure cluster is left alone or can be patched.
    pub record IsAttainable (IsObject : K.Unstructured → Type 0) (r : Reconciler K) : Type 0 where
      pub is_checked : check_sans a.network.cert_sans ≡ ok tt
      pub has_address : (a.endpoint == "") ≡ false
      pub names_admin : (a.admin_secret == "") ≡ false
      pub names_ca : (a.ca_secret == "") ≡ false
      pub is_patchable : (r.enabled skip_infra_cluster_patch ≡ true) ⊎ IsPatchable IsObject
      pub has_conditions :
          IsLawfulConditions K.find_status_condition K.set_status_condition
            K.remove_status_condition
