-- ===== src/Startup/Watches.antt =====
-- Which Secrets a change of a KamajiControlPlane brings back.
use mathlib.Core.Path.{ap₂}
use cluster_api_control_plan.Base.{
  String, ◌≡◌, refl, true, some, List, [], ◌∷◌, map, entries, contains, All, arith, eq_iff,
}
use cluster_api_control_plan.Errors.{ok}
use cluster_api_control_plan.Objects.{
  Foreign, KamajiControlPlane, ExternalClusterReference, Secret, key_of,
}
use cluster_api_control_plan.Kube.{Kube}
use cluster_api_control_plan.ExternalCluster.Names.{
  kubeconfig_namespace, generate_key_name_from_kamaji, index_secret_by_key,
}
use cluster_api_control_plan.ExternalCluster.Names.Laws.{IsPlain, contains-secret_keys}
use cluster_api_control_plan.Controller.ExternalReference.Laws.{secret_key}
use cluster_api_control_plan.Controller.Managers.Service.{reference_key}
use cluster_api_control_plan.Startup.Wiring.{secret_by_key_field, requests_of_kamaji}

-- A Secret that the index has under a key, with names that have no slash.
pub record IsIndexed (key : String) (secret : Secret) : Type 0 where
  pub has_key : contains key (index_secret_by_key secret) ≡ true
  pub are_plain :
      All (λ (j, _). IsPlain secret.meta.namespace secret.meta.name j) (entries secret.contents)

module _ {F : Foreign} where
  key-indexed :
      (kcp : KamajiControlPlane F) (ref : ExternalClusterReference) (secret : Secret)
      → IsPlain
          (kubeconfig_namespace kcp.meta.namespace ref)
          ref.kubeconfig_secret_name
          ref.kubeconfig_secret_key
      → IsIndexed (reference_key kcp.meta.namespace ref) secret
      → key_of secret.meta ≡ secret_key kcp ref
  unfolding index_secret_by_key
  key-indexed kcp ref secret p i =
      let namespace = kubeconfig_namespace kcp.meta.namespace ref in
      let same =
        contains-secret_keys namespace ref.kubeconfig_secret_name ref.kubeconfig_secret_key secret p
          i.are_plain in
      ground (
        arith,
        same,
        i.has_key,
        eq_iff secret.meta.namespace namespace,
        eq_iff secret.meta.name ref.kubeconfig_secret_name,
      )

  keys-indexed :
      (kcp : KamajiControlPlane F) (ref : ExternalClusterReference) (found : List Secret)
      → IsPlain
          (kubeconfig_namespace kcp.meta.namespace ref)
          ref.kubeconfig_secret_name
          ref.kubeconfig_secret_key
      → All (IsIndexed (reference_key kcp.meta.namespace ref)) found
      → map (λ secret. key_of secret.meta) found ≡ map (λ secret. secret_key kcp ref) found
  keys-indexed kcp ref [] p all = refl
  keys-indexed kcp ref (secret ∷ more) p (i, all) =
      ap₂ ◌∷◌ (key-indexed kcp ref secret p i) (keys-indexed kcp ref more p all)

  -- If the Secrets that the index lists for the key of a KamajiControlPlane's reference do have that
  -- key, then a change of the KamajiControlPlane brings back, for each of them, the very Secret that
  -- the KamajiControlPlane's reconciliation reads, in the namespace that the reference stands for.
  pub requests_of_kamaji-eq :
      (K : Kube F) (kcp : KamajiControlPlane F) (ref : ExternalClusterReference)
      (found : List Secret) (w w1 : K.World)
      → kcp.spec.deployment.external_cluster_reference ≡ some ref
      → IsPlain
          (kubeconfig_namespace kcp.meta.namespace ref)
          ref.kubeconfig_secret_name
          ref.kubeconfig_secret_key
      → K.list_secrets secret_by_key_field (reference_key kcp.meta.namespace ref) w ≡ (ok found, w1)
      → All (IsIndexed (reference_key kcp.meta.namespace ref)) found
      → requests_of_kamaji K kcp w ≡ (ok (map (λ secret. secret_key kcp ref) found), w1)
  unfolding requests_of_kamaji generate_key_name_from_kamaji
  requests_of_kamaji-eq K kcp ref found w w1 refers p listed all =
      ground (arith, refers, listed, keys-indexed kcp ref found p all)
