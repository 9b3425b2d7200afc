-- ===== src/Controller/Reconcile/Progress/Infrastructure.antt =====
-- The infrastructure cluster is patched.
use cluster_api_control_plan.Base.{
  ◌≡◌, ◌∙◌, ap, arith, String, [], ◌∷◌, true, some, Bool-cases, inl, inr,
}
use cluster_api_control_plan.Base.Int.{ℤ}
use cluster_api_control_plan.Errors.{ok}
use cluster_api_control_plan.Objects.{Foreign, KamajiControlPlane, Cluster, ObjectReference}
use cluster_api_control_plan.Kube.{Kube, text, number}
use cluster_api_control_plan.Controller.Run.{Reconciler}
use cluster_api_control_plan.Controller.ClusterPatch.Endpoint.{control_plane_endpoint}
use cluster_api_control_plan.Controller.ClusterPatch.Infrastructure.{
  way_of, cases, get_infra_cluster_from_ref, infra_cluster, set_generic_fields, send_generic_patch,
  patch_generic, patch_generic_cluster, patch_by, patch_by_kind, patch_cluster,
}
use cluster_api_control_plan.Controller.Reconcile.Progress.{
  Fixed, IsPatchable, IsProvisioned, Answers,
}

module _ {F : Foreign} (K : Kube F) (a : Fixed F) {Good : K.World → Type 0}
    {IsObject : K.Unstructured → Type 0} (v : IsPatchable K a Good IsObject) where
  infra_cluster-ok :
      (fresh : Cluster) (w : K.World)
      → IsProvisioned K a fresh
      → Good w
      → Answers K a Good (infra_cluster K fresh w) IsObject
  unfolding infra_cluster get_infra_cluster_from_ref
  infra_cluster-ok fresh w p good =
      let (gvk, w1, e1, gets, good1) = v.maps w good in
      let (infra, w2, e2, object, good2) = gets w1 good1 in
      (
        infra,
        w2,
        ground (arith, e1, e2, v.is_defined, p.has_infrastructure, p.in_namespace),
        object,
        good2,
      )

  set_generic_fields-ok :
      (infra : K.Unstructured) (endpoint : String) (port : ℤ)
      → IsObject infra
      → (changed : K.Unstructured) × (set_generic_fields K infra endpoint port v.patches_status
          ≡ ok changed)
  unfolding set_generic_fields
  set_generic_fields-ok infra endpoint port object =
      let (infra1, e1, object1) =
        v.sets_map infra (("host", text endpoint) ∷ ("port", number port) ∷ [])
          ("controlPlaneEndpoint" ∷ []) object in
      let (infra2, e2) = v.sets_ready infra1 object1 in
      elim (Bool-cases v.patches_status) [
        | inl y ↦ (infra2, ground (arith, e1, e2, y))
        | inr n ↦ (infra1, ground (arith, e1, n))
      ]

  send_generic_patch-ok :
      (infra : K.Unstructured) (endpoint : String) (port : ℤ) (w : K.World)
      → IsObject infra
      → Good w
      → (w' : K.World) × (send_generic_patch K infra endpoint port v.patches_status w ≡ (ok tt, w'))
        × Good w'
  unfolding send_generic_patch
  send_generic_patch-ok infra endpoint port w object good =
      let (helper, e1) = v.helps infra object in
      let (changed, e2) = set_generic_fields-ok infra endpoint port object in
      let (u, w1, e3, _, good1) = v.patches helper changed w good in
      (w1, ground (arith, e1, e2, e3), good1)

  pub patch_cluster-ok :
      (r : Reconciler K) (fresh : Cluster) (kcp : KamajiControlPlane F) (hostport : String)
      (w : K.World) {chosen : String × ℤ}
      → control_plane_endpoint kcp hostport ≡ ok chosen
      → IsProvisioned K a fresh
      → Good w
      → (w' : K.World) × (patch_cluster K r fresh kcp hostport w ≡ (ok tt, w')) × Good w'
  unfolding patch_cluster patch_by_kind patch_by patch_generic_cluster
  patch_cluster-ok r fresh kcp hostport w {chosen} parsed p good =
      let (infra, w1, e1, object, good1) = infra_cluster-ok fresh w p good in
      let (w2, e2, good2) = send_generic_patch-ok infra chosen.0 chosen.1 w1 object good1 in
      let ref = p.has_infrastructure in
      let defined : K.is_defined fresh.infrastructure_ref ≡ true =
        ap K.is_defined ref ∙ v.is_defined in
      let way : way_of fresh.infrastructure_ref.kind cases ≡ some (patch_generic v.patches_status) =
        ap (λ (x : ObjectReference). way_of x.kind cases) ref ∙ v.has_way in
      (w2, ground (arith, defined, way, parsed, e1, e2), good2)
