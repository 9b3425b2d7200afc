-- ===== src/Controller/ExternalReference.antt =====
-- controllers/kamajicontrolplane_controller_externalreference.go: the client of the cluster that
-- hosts the TenantControlPlane. The gates are those of pkg/features/features.go.
pub mod Laws
use cluster_api_control_plan.Base.{
  String, ◌<>◌, ◌!=◌, Bool, true, false, ◌&&◌, not, Option, none, some, lookup, entries,
  if◌then◌else◌,
}
use cluster_api_control_plan.Errors.{
  Error, Result, ok, err, sentinel, wrap, nil_pointer, err_not_enabled,
  err_cross_namespace_reference, err_secret_empty, err_secret_key_empty, err_non_initialized_store,
  err_tenant_control_plane_not_found,
}
use cluster_api_control_plan.Objects.{
  Foreign, KamajiControlPlane, ExternalClusterReference, ObjectKey, Secret, Bytes,
}
use cluster_api_control_plan.Kube.{Kube}
use cluster_api_control_plan.ExternalCluster.Names.{
  kubeconfig_namespace, generate_key_name_from_kamaji,
}
use cluster_api_control_plan.ExternalCluster.Store.{get}
use cluster_api_control_plan.Controller.Run.{Reconciler}

abbrev pub external_cluster_reference : String
external_cluster_reference = "ExternalClusterReference"

abbrev pub external_cluster_reference_cross_namespace : String
external_cluster_reference_cross_namespace = "ExternalClusterReferenceCrossNamespace"

abbrev pub skip_infra_cluster_patch : String
skip_infra_cluster_patch = "SkipInfraClusterPatch"

abbrev pub dynamic_infrastructure_cluster_patch : String
dynamic_infrastructure_cluster_patch = "DynamicInfrastructureClusterPatch"

-- m[k] == nil, where a missing key has the value nil
abbrev pub value_or_nil : Option Bytes → Bytes
value_or_nil none = none
value_or_nil (some b) = b

module _ {F : Foreign} (K : Kube F) where
  -- The RESTMapper of the manager has to know TenantControlPlanes.
  unfoldable pub client_of_manager : K.Manager → K.World → Result K.Client × K.World
  client_of_manager manager w =
      let (r, w1) = K.kind_for_tenants manager w in
      elim r [
        | err e ↦ (err (sentinel err_tenant_control_plane_not_found), w1)
        | ok u ↦ (ok (K.get_client manager), w1)
      ]

  -- The store has to run a manager for the key, made of this version of the Secret. `get` shows a
  -- manager whenever it finds one.
  unfoldable pub client_of_entry : Option K.Manager × Bool → K.World → Result K.Client × K.World
  unfolding client_of_manager
  client_of_entry (some manager, true) w = client_of_manager manager w
  client_of_entry (none, true) w = (err nil_pointer, w)
  client_of_entry (m, false) w = (err (sentinel err_non_initialized_store), w)

  unfoldable pub client_of_secret :
      Reconciler K
      → KamajiControlPlane F
      → ExternalClusterReference
      → Secret
      → K.World
      → Result K.Client × K.World
  unfolding client_of_entry
  client_of_secret r kcp ref secret w = elim secret.contents [
    | none ↦ (err (sentinel err_secret_empty), w)
    | some m ↦ elim (value_or_nil (lookup ref.kubeconfig_secret_key m)) [
      | none ↦ (err (sentinel err_secret_key_empty), w)
      | some bytes ↦ elim (generate_key_name_from_kamaji kcp) [
        | err e ↦ (err e, w)
        | ok key ↦ client_of_entry (get key secret.meta.resource_version r.store) w
      ]
    ]
  ]

  -- The tests on the namespace, and the read of the Secret.
  unfoldable pub client_of_reference :
      Reconciler K
      → KamajiControlPlane F
      → ExternalClusterReference
      → K.World
      → Result K.Client × K.World
  unfolding client_of_secret kubeconfig_namespace
  client_of_reference r kcp ref w =
      if not (r.enabled external_cluster_reference_cross_namespace)
        && ref.kubeconfig_secret_namespace != ""
        && ref.kubeconfig_secret_namespace != kcp.meta.namespace
      then (err (sentinel err_cross_namespace_reference), w)
      else let (found, w1) =
          K.get_secret K.local
            (record {
              namespace = kubeconfig_namespace kcp.meta.namespace ref;
              name = ref.kubeconfig_secret_name;
            })
            w in
        elim found [
          | err e ↦ (wrap "could not get external cluster reference secret: " (err e), w1)
          | ok secret ↦ client_of_secret r kcp ref secret w1
        ]

  unfoldable pub extract_remote_client :
      Reconciler K → KamajiControlPlane F → K.World → Result K.Client × K.World
  unfolding client_of_reference
  extract_remote_client r kcp w =
      if not (r.enabled external_cluster_reference)
      then (err (sentinel err_not_enabled), w)
      else elim kcp.spec.deployment.external_cluster_reference [
        | none ↦ (err nil_pointer, w)
        | some ref ↦ client_of_reference r kcp ref w
      ]
