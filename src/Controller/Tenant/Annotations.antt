-- ===== src/Controller/Tenant/Annotations.antt =====
-- Which annotations a TenantControlPlane gets.
use cluster_api_control_plan.Base.{
  String, ◌==◌, ◌!=◌, ◌≡◌, Option, none, some, [], ◌∷◌, Entries, lookup, insert, arith, eq_iff,
  lookup-insert, lookup-erase, if◌then◌else◌, NodupKeys,
}
use mathlib.Core.Quot
use mathlib.Core.List.{Perm}
use cluster_api_control_plan.Base.Maps.View.{view, view-SameMap, Perm-view}
use cluster_api_control_plan.Kube.{Kube}
use cluster_api_control_plan.Objects.{Foreign}
use cluster_api_control_plan.Controller.Tenant.Metadata.{
  value_or_empty, copy_annotations, tenant_annotations,
}

abbrev pub or_else {ℓ} : {A : Type ℓ} → Option A → Option A → Option A
or_else none b = b
or_else (some a) b = some a

lookup-copy :
    (skipped : String) (from to : Entries String) (k : String)
    → NodupKeys from
    → lookup k (copy_annotations skipped from to)
      ≡ (if k == skipped then lookup k to else or_else (lookup k from) (lookup k to))
unfolding copy_annotations lookup
lookup-copy skipped [] to k u = ground arith
lookup-copy skipped ((j, v) ∷ from) to k (fresh, u) = ground (
  arith,
  lookup-copy skipped from (if j == skipped then to else insert j v to) k u,
  lookup-insert j k v to,
  eq_iff j skipped,
  eq_iff k skipped,
  eq_iff j k,
)

-- The annotation of the kubeconfig key.
abbrev pub text_if_some : String → Option String
text_if_some v = if v != "" then some v else none

module _ {F : Foreign} (K : Kube F) where
  -- The key of the kubeconfig has the KamajiControlPlane's value, and is absent if that is empty or
  -- missing. Kubectl's record of the last applied configuration is left as it was. Any other key
  -- has the KamajiControlPlane's value if it has one there, and is left as it was if not.
  pub lookup-tenant_annotations :
      (from to : Entries String) (k : String)
      → NodupKeys from
      → lookup k (tenant_annotations K from to) ≡ (
          if k == K.kubeconfig_secret_key_annotation
          then text_if_some (value_or_empty (lookup k from))
          else if k == K.last_applied_config_annotation
          then lookup k to
          else or_else (lookup k from) (lookup k to))
  unfolding tenant_annotations
  lookup-tenant_annotations from to k u = ground (
    arith,
    eq_iff k K.kubeconfig_secret_key_annotation,
    eq_iff K.kubeconfig_secret_key_annotation k,
    lookup-copy K.last_applied_config_annotation from to k u,
    lookup-insert K.kubeconfig_secret_key_annotation k
        (value_or_empty (lookup K.kubeconfig_secret_key_annotation from))
        (copy_annotations K.last_applied_config_annotation from to),
    lookup-erase K.kubeconfig_secret_key_annotation k
        (copy_annotations K.last_applied_config_annotation from to),
  )

  -- If no annotation of the KamajiControlPlane stands twice, the annotations of the
  -- TenantControlPlane, as a map that forgets the order of its entries, do not depend on the order
  -- in which the loop meets those of the KamajiControlPlane, and depend on those that the
  -- TenantControlPlane had only as a map; and another pass, in any order, leaves that map as it is.
  pub view-tenant_annotations :
      {from from' to to' : Entries String}
      → NodupKeys from
      → Perm from from'
      → view to ≡ view to'
      → (view (tenant_annotations K from to) ≡ view (tenant_annotations K from' to'))
        × (view (tenant_annotations K from' (tenant_annotations K from to))
            ≡ view (tenant_annotations K from to))
  view-tenant_annotations {from} {from'} {to} {to'} u p h =
      let (same, v) = Perm-view p u in
      (
        Quot.sound (λ k. ground (
          arith,
          lookup-tenant_annotations from to k u,
          lookup-tenant_annotations from' to' k v,
          view-SameMap same k,
          view-SameMap h k,
        )),
        Quot.sound (λ k. ground (
          arith,
          lookup-tenant_annotations from to k u,
          lookup-tenant_annotations from' (tenant_annotations K from to) k v,
          view-SameMap same k,
        )),
      )
