-- ===== src/Startup/Wiring.antt =====
-- `SetupWithManager` of the two controllers of the management cluster
-- (controllers/kamajicontrolplane_controller.go, controllers/externalclusterreference_controller.go)
-- and of the indexes (pkg/indexers/setup.go).
use cluster_api_control_plan.Base.{
  ℕ, String, ◌<>◌, Bool, true, false, none, some, List, [], ◌∷◌, map, if◌then◌else◌,
}
use cluster_api_control_plan.Errors.{
  Result, ok, err, prefixed, suffixed, sentinel, err_client_set_creation, error_text, is_ok,
}
use cluster_api_control_plan.Objects.{
  Foreign, ObjectMeta, ObjectKey, OwnerReference, KamajiControlPlane, Secret, key_of,
}
use cluster_api_control_plan.Kube.{Kube}
use cluster_api_control_plan.ExternalCluster.Names.{
  generate_key_name_from_kamaji, index_kamaji_by_key, index_kamaji_by_uid, index_secret_by_key,
}
use cluster_api_control_plan.Controller.Run.{Reconciler}
use cluster_api_control_plan.Controller.Managers.{kamaji_by_key_field}
use cluster_api_control_plan.Controller.Push.{kamaji_uid_field}
use cluster_api_control_plan.Startup.Calls.{
  Indexer, kcp_indexer, secret_indexer, field_of, Source, for_objects, owned, channel, watched,
  kamaji_control_plane, external_cluster_reference, Program, Host,
}

-- indexers.ExternalClusterReferenceSecretField
abbrev pub secret_by_key_field : String
secret_by_key_field = "externalClusterReferenceSecret"

-- len(object.GetOwnerReferences()) > 0
abbrev pub any_owner : List OwnerReference → Bool
any_owner [] = false
any_owner (o ∷ os) = true

unfoldable pub has_owner : ObjectMeta → Bool
has_owner meta = any_owner meta.owner_references

abbrev pub any_object : ObjectMeta → Bool
any_object meta = true

-- The indexers of pkg/indexers: the type of the objects, the field and the values.
abbrev pub external_cluster_reference_kamaji_control_plane : {F : Foreign} → Indexer F
external_cluster_reference_kamaji_control_plane =
    kcp_indexer kamaji_by_key_field index_kamaji_by_key

abbrev pub external_cluster_reference_secret : {F : Foreign} → Indexer F
external_cluster_reference_secret =
    secret_indexer secret_by_key_field (λ secret. ok (index_secret_by_key secret))

abbrev pub kamaji_control_plane_uid : {F : Foreign} → Indexer F
kamaji_control_plane_uid = kcp_indexer kamaji_uid_field (λ kcp. ok (index_kamaji_by_uid kcp))

-- In the order of the loop.
abbrev pub indexers : {F : Foreign} → List (Indexer F)
indexers =
    external_cluster_reference_kamaji_control_plane ∷ external_cluster_reference_secret
    ∷ kamaji_control_plane_uid ∷ []

module _ {F : Foreign} (K : Kube F) where
  abbrev requests_of : Result (List Secret) → List ObjectKey
  requests_of (ok secrets) = map (λ secret. key_of secret.meta) secrets
  requests_of (err e) = []

  -- The requests of the Secrets that a KamajiControlPlane refers to. An error of the index counts as
  -- none.
  unfoldable pub requests_of_kamaji :
      KamajiControlPlane F → K.World → Result (List ObjectKey) × K.World
  requests_of_kamaji kcp w = elim kcp.spec.deployment.external_cluster_reference [
    | none ↦ (ok [], w)
    | some ref ↦ elim (generate_key_name_from_kamaji kcp) [
      | err e ↦ (err e, w)
      | ok key ↦
          let (found, w1) = K.list_secrets secret_by_key_field key w in (ok (requests_of found), w1)
    ]
  ]

  module _ (H : Host K) where
    unfoldable pub setup_indexers : List (Indexer F) → K.Manager → Program K.World (Unit {0})
    setup_indexers [] mgr w = (ok tt, w)
    setup_indexers (indexer ∷ more) mgr w =
        let (r, w1) = H.index_field mgr indexer w in
        let rest = setup_indexers more mgr w1 in
        elim r [
          | err e ↦ (err (prefixed ("failed to set up indexer " <> field_of indexer <> ": ") e), w1)
          | ok u ↦ rest
        ]

    -- TenantControlPlanes are watched only if the server has them at that time.
    abbrev kamaji_sources : Bool → List (Source K)
    kamaji_sources known =
        for_objects "KamajiControlPlane" has_owner
        ∷ owned "Secret"
        ∷ channel
        ∷ (if known then owned "TenantControlPlane" ∷ [] else [])

    unfoldable pub setup_kamaji_control_plane :
        Reconciler K → ℕ → K.Manager → Program K.World (Unit {0})
    setup_kamaji_control_plane r max mgr w = elim (H.new_for_config mgr) [
      | err e ↦ (err (suffixed (sentinel err_client_set_creation) (error_text e)), w)
      | ok cs ↦
          let (found, w1) = H.tenant_resources cs w in
          H.complete mgr (kamaji_control_plane r (kamaji_sources (is_ok found)) max) w1
    ]

    abbrev pub secret_sources : List (Source K)
    secret_sources = for_objects "Secret" any_object ∷ watched requests_of_kamaji ∷ []

    unfoldable pub setup_external_cluster_reference : K.Manager → Program K.World (Unit {0})
    setup_external_cluster_reference mgr =
        H.complete mgr (external_cluster_reference secret_sources)
