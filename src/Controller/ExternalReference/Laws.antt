-- ===== src/Controller/ExternalReference/Laws.antt =====
-- What a client of another cluster rests on.
use cluster_api_control_plan.Base.{
  String, ◌!=◌, ◌≡◌, ◌≢◌, refl, Bool, true, false, ◌&&◌, not, Option, none, some, lookup, entries,
  inl, inr, Option-cases, Bool-cases, arith, eq_iff,
}
use cluster_api_control_plan.Errors.{ok, Result-cases}
use cluster_api_control_plan.Objects.{
  Foreign, KamajiControlPlane, ExternalClusterReference, ObjectKey, Secret,
}
use cluster_api_control_plan.Kube.{Kube}
use cluster_api_control_plan.ExternalCluster.Names.{
  kubeconfig_namespace, generate_key_name_from_kamaji,
}
use cluster_api_control_plan.ExternalCluster.Store.{get}
use cluster_api_control_plan.Controller.Run.{Reconciler}
use cluster_api_control_plan.Controller.ExternalReference.{
  external_cluster_reference, external_cluster_reference_cross_namespace, value_or_nil,
  client_of_manager, client_of_entry, client_of_secret, client_of_reference, extract_remote_client,
}

-- The key under which the Secret of a reference is read.
abbrev pub secret_key : {F : Foreign} → KamajiControlPlane F → ExternalClusterReference → ObjectKey
secret_key kcp ref = record {
  namespace = kubeconfig_namespace kcp.meta.namespace ref;
  name = ref.kubeconfig_secret_name;
}

namespace_confined :
    (cross : Bool) (namespace : String) (ref : ExternalClusterReference)
    → (not cross
        && ref.kubeconfig_secret_namespace != ""
        && ref.kubeconfig_secret_namespace != namespace)
      ≡ false
    → cross ≡ false
    → kubeconfig_namespace namespace ref ≡ namespace
unfolding kubeconfig_namespace
namespace_confined cross namespace ref h off =
    ground (arith, eq_iff ref.kubeconfig_secret_namespace namespace)

module _ {F : Foreign} (K : Kube F) where
  -- The reference, the Secret and the running manager behind a client.
  pub record IsExtracted (r : Reconciler K) (kcp : KamajiControlPlane F) (w : K.World)
      (client : K.Client) (w' : K.World) : Type 0 where
    pub ref : ExternalClusterReference
    pub secret : Secret
    pub manager : K.Manager
    pub key : String
    pub w1 : K.World
    pub refers : kcp.spec.deployment.external_cluster_reference ≡ some ref
    pub gate_open : r.enabled external_cluster_reference ≡ true
    pub is_confined :
        r.enabled external_cluster_reference_cross_namespace ≡ false
        → kubeconfig_namespace kcp.meta.namespace ref ≡ kcp.meta.namespace
    pub is_read : K.get_secret K.local (secret_key kcp ref) w ≡ (ok secret, w1)
    pub has_entry : value_or_nil (lookup ref.kubeconfig_secret_key (entries secret.contents)) ≢ none
    pub is_keyed : generate_key_name_from_kamaji kcp ≡ ok key
    pub is_running : get key secret.meta.resource_version r.store ≡ (some manager, true)
    pub is_served : K.kind_for_tenants manager w1 ≡ (ok tt, w')
    pub is_client : K.get_client manager ≡ client

  entry_inversion :
      (e : Option K.Manager × Bool) (w : K.World) {client : K.Client} {w' : K.World}
      → client_of_entry K e w ≡ (ok client, w')
      → (m : K.Manager) × (e ≡ (some m, true))
        × (K.kind_for_tenants m w ≡ (ok tt, w'))
        × (K.get_client m ≡ client)
  unfolding client_of_entry
  entry_inversion (some m, true) w h = (m, refl, ground arith, ground arith)
  entry_inversion (none, true) w h = ground arith
  entry_inversion (none, false) w h = ground arith
  entry_inversion (some m, false) w h = ground arith

  secret_inversion :
      (r : Reconciler K) (kcp : KamajiControlPlane F) (ref : ExternalClusterReference)
      (secret : Secret) (w : K.World) {client : K.Client} {w' : K.World}
      → client_of_secret K r kcp ref secret w ≡ (ok client, w')
      → (key : String) × (generate_key_name_from_kamaji kcp ≡ ok key)
        × (value_or_nil (lookup ref.kubeconfig_secret_key (entries secret.contents)) ≢ none)
        × (client_of_entry K (get key secret.meta.resource_version r.store) w ≡ (ok client, w'))
  unfolding client_of_secret
  secret_inversion r kcp ref secret w h = elim (Result-cases (generate_key_name_from_kamaji kcp)) [
    | inr (e, q) ↦ ground arith
    | inl (key, q) ↦ (key, q, ground arith, ground arith)
  ]

  reference_inversion :
      (r : Reconciler K) (kcp : KamajiControlPlane F) (ref : ExternalClusterReference) (w : K.World)
      {client : K.Client} {w' : K.World}
      → client_of_reference K r kcp ref w ≡ (ok client, w')
      → (secret : Secret) × (w1 : K.World) × (K.get_secret K.local (secret_key kcp ref) w
          ≡ (ok secret, w1))
        × (client_of_secret K r kcp ref secret w1 ≡ (ok client, w'))
        × (r.enabled external_cluster_reference_cross_namespace ≡ false
            → kubeconfig_namespace kcp.meta.namespace ref ≡ kcp.meta.namespace)
  unfolding client_of_reference
  reference_inversion r kcp ref w h =
      let (found, w1) = K.get_secret K.local (secret_key kcp ref) w in
      elim (Result-cases found) [
        | inr (e, q) ↦ ground arith
        | inl (secret, q) ↦ (
          secret,
          w1,
          ground arith,
          ground arith,
          namespace_confined (r.enabled external_cluster_reference_cross_namespace)
              kcp.meta.namespace ref (ground arith),
        )
      ]

  -- A client is given only if the gate is open, from the Secret of the reference, through the
  -- manager that the store runs under its key for this very version of the Secret, and if that
  -- cluster serves TenantControlPlanes. Unless references across namespaces are enabled, the
  -- Secret is in the namespace of the object.
  pub extract_remote_client-IsExtracted :
      (r : Reconciler K) (kcp : KamajiControlPlane F) (w : K.World) {client : K.Client}
      {w' : K.World}
      → extract_remote_client K r kcp w ≡ (ok client, w')
      → IsExtracted r kcp w client w'
  unfolding extract_remote_client
  extract_remote_client-IsExtracted r kcp w h =
      elim (Option-cases kcp.spec.deployment.external_cluster_reference) [
        | inl e ↦ ground arith
        | inr (ref, e) ↦
            let (secret, w1, read, rest, confined) =
              reference_inversion r kcp ref w (ground arith) in
            let (key, keyed, has, rest1) = secret_inversion r kcp ref secret w1 rest in
            let (manager, runs, served, is) =
              entry_inversion (get key secret.meta.resource_version r.store) w1 rest1 in
            record {
              ref = ref;
              secret = secret;
              manager = manager;
              key = key;
              w1 = w1;
              refers = e;
              gate_open = ground arith;
              is_confined = confined;
              is_read = read;
              has_entry = has;
              is_keyed = keyed;
              is_running = runs;
              is_served = served;
              is_client = is;
            }
      ]

  secret-IsExtracted :
      (r : Reconciler K) (kcp : KamajiControlPlane F) (w : K.World) {client : K.Client}
      {w' : K.World} (i : IsExtracted r kcp w client w')
      → client_of_secret K r kcp i.ref i.secret i.w1 ≡ (ok client, w')
  unfolding client_of_secret client_of_entry client_of_manager lookup
  secret-IsExtracted r kcp w i = elim (Option-cases i.secret.contents) [
    | inl n ↦ absurd (i.has_entry (ground arith))
    | inr (values, e) ↦
        elim (Option-cases (value_or_nil (lookup i.ref.kubeconfig_secret_key values))) [
          | inl n ↦ absurd (i.has_entry (ground arith))
          | inr (bytes, q) ↦ ground (arith, i.is_keyed, i.is_running, i.is_served, i.is_client)
        ]
  ]

  -- With all of these a client is given.
  pub IsExtracted-extract_remote_client :
      (r : Reconciler K) (kcp : KamajiControlPlane F) (w : K.World) {client : K.Client}
      {w' : K.World} (i : IsExtracted r kcp w client w')
      → extract_remote_client K r kcp w ≡ (ok client, w')
  unfolding extract_remote_client client_of_reference kubeconfig_namespace
  IsExtracted-extract_remote_client r kcp w i =
      elim (Bool-cases (r.enabled external_cluster_reference_cross_namespace)) [
        | inl y ↦ ground (arith, y, secret-IsExtracted r kcp w i, i.refers, i.gate_open, i.is_read)
        | inr n ↦ ground (
          arith,
          n,
          secret-IsExtracted r kcp w i,
          i.refers,
          i.gate_open,
          i.is_read,
          i.is_confined n,
          eq_iff i.ref.kubeconfig_secret_namespace "",
          eq_iff i.ref.kubeconfig_secret_namespace kcp.meta.namespace,
        )
      ]
