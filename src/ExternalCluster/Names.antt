-- ===== src/ExternalCluster/Names.antt =====
-- pkg/externalclusterreference/name_generator.go, and the field indexes of pkg/indexers that are
-- made of these names.
pub mod Laws
use cluster_api_control_plan.Base.{
  String, ◌<>◌, ◌!=◌, Bool, true, false, Option, none, some, List, [], ◌∷◌, map, Entries, entries,
  if◌then◌else◌,
}
use cluster_api_control_plan.GoNet.{has_prefix, trim_prefix}
use cluster_api_control_plan.Errors.{Result, ok, err, nil_pointer}
use cluster_api_control_plan.Objects.{
  Foreign, TenantControlPlane, KamajiControlPlane, ExternalClusterReference, Secret, Bytes,
}

abbrev pub remote_tcp_prefix : String
remote_tcp_prefix = "kcp-"

-- The conversion of a TenantControlPlane's name; "" if it is not one of a remote KamajiControlPlane.
unfoldable pub uid_of_name : String → String
uid_of_name name =
    if has_prefix name remote_tcp_prefix then trim_prefix name remote_tcp_prefix else ""

abbrev pub key_name : String → String → String → String
key_name namespace name key = namespace <> "/" <> name <> "/" <> key

unfoldable pub generate_key_name_from_secret : Secret → List String
generate_key_name_from_secret secret =
    map (λ (k, _). key_name secret.meta.namespace secret.meta.name k) (entries secret.contents)

-- The namespace of the kubeconfig: that of the object, unless the reference names one.
unfoldable pub kubeconfig_namespace : String → ExternalClusterReference → String
kubeconfig_namespace namespace ref =
    if ref.kubeconfig_secret_namespace != "" then ref.kubeconfig_secret_namespace else namespace

module _ {F : Foreign} where
  unfoldable pub parse_kamaji_control_plane_uid : TenantControlPlane F → String
  unfolding uid_of_name
  parse_kamaji_control_plane_uid tcp = uid_of_name tcp.meta.name

  -- Name and namespace. A nil reference is a nil pointer dereference.
  unfoldable pub generate_remote_tenant_control_plane_names :
      KamajiControlPlane F → Result (String × String)
  generate_remote_tenant_control_plane_names kcp =
      elim kcp.spec.deployment.external_cluster_reference [
        | none ↦ err nil_pointer
        | some ref ↦ ok (remote_tcp_prefix <> kcp.meta.uid, ref.deployment_namespace)
      ]

  unfoldable pub generate_key_name_from_kamaji : KamajiControlPlane F → Result String
  unfolding kubeconfig_namespace
  generate_key_name_from_kamaji kcp = elim kcp.spec.deployment.external_cluster_reference [
    | none ↦ err nil_pointer
    | some ref ↦ ok (
        key_name (kubeconfig_namespace kcp.meta.namespace ref) ref.kubeconfig_secret_name
          ref.kubeconfig_secret_key)
  ]

  -- ExternalClusterReferenceKamajiControlPlane.ExtractValue
  unfoldable pub index_kamaji_by_key : KamajiControlPlane F → Result (List String)
  unfolding generate_key_name_from_kamaji
  index_kamaji_by_key kcp = elim kcp.spec.deployment.external_cluster_reference [
    | none ↦ ok []
    | some ref ↦ elim (generate_key_name_from_kamaji kcp) [ ok k ↦ ok (k ∷ []) | err e ↦ err e ]
  ]

  -- KamajiControlPlaneUID.ExtractValue
  unfoldable pub index_kamaji_by_uid : KamajiControlPlane F → List String
  index_kamaji_by_uid kcp = kcp.meta.uid ∷ []

-- ExternalClusterReferenceSecret.ExtractValue
unfoldable pub index_secret_by_key : Secret → List String
unfolding generate_key_name_from_secret
index_secret_by_key secret = generate_key_name_from_secret secret
