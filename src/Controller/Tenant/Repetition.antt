-- ===== src/Controller/Tenant/Repetition.antt =====
-- A second run of the closure of CreateOrUpdate, on what the first has made.
use mathlib.Core.List.Perm
use cluster_api_control_plan.Base.{
  sym, ◌≡◌, refl, ◌∙◌, Bool, true, false, arith, ap, some, entries, NodupKeys, inl, inr,
}
use cluster_api_control_plan.Base.Maps.View.{view}
use cluster_api_control_plan.Errors.{ok, Result-cases}
use cluster_api_control_plan.Objects.{
  Foreign, KamajiControlPlane, TenantControlPlane, Cluster, ObjectMeta,
}
use cluster_api_control_plan.Kube.{Kube}
use cluster_api_control_plan.Kube.Laws.{IsLawfulOwner}
use cluster_api_control_plan.Controller.Tenant.Annotations.{view-tenant_annotations}
use cluster_api_control_plan.Controller.Tenant.Convergence.{
  desired_twice, desired-default, default_twice,
}
use cluster_api_control_plan.Controller.Tenant.Exposure.{check_sans}
use cluster_api_control_plan.Controller.Tenant.Metadata.{tenant_meta, tenant_annotations}
use cluster_api_control_plan.Controller.Tenant.Outcome.{desired}
use cluster_api_control_plan.Controller.Tenant.Settings.{with_core_dns_default}
use cluster_api_control_plan.Controller.Tenant.Upsert.{mutate, set_owner}

module _ {F : Foreign} where
  default-meta : (kcp : KamajiControlPlane F) → (with_core_dns_default kcp).meta ≡ kcp.meta
  unfolding with_core_dns_default
  default-meta kcp = ground arith

  default-sans :
      (kcp : KamajiControlPlane F)
      → (with_core_dns_default kcp).spec.network.cert_sans ≡ kcp.spec.network.cert_sans
  unfolding with_core_dns_default
  default-sans kcp = ground arith

module _ {F : Foreign} (K : Kube F) where
  -- What is given to `set_owner`.
  abbrev pub dressed : Cluster → TenantControlPlane F → KamajiControlPlane F → TenantControlPlane F
  dressed cluster tcp kcp = record tcp {
    meta = tenant_meta K kcp tcp.meta;
    spec = desired cluster kcp.spec tcp.spec;
  }

  mutate-set_owner :
      (delegated : Bool) (client : K.Client) (cluster : Cluster) (tcp : TenantControlPlane F)
      (kcp : KamajiControlPlane F) {tcp' : TenantControlPlane F} {kcp' : KamajiControlPlane F}
      → mutate K delegated client cluster (tcp, kcp) ≡ (ok tt, (tcp', kcp'))
      → (check_sans kcp.spec.network.cert_sans ≡ ok tt)
        × (kcp' ≡ with_core_dns_default kcp)
        × (set_owner K delegated client (with_core_dns_default kcp) (dressed cluster tcp kcp)
            ≡ (ok tt, tcp'))
  unfolding mutate
  mutate-set_owner delegated client cluster tcp kcp {tcp'} {kcp'} h =
      elim (Result-cases (check_sans kcp.spec.network.cert_sans)) [
        | inr (e, q) ↦ ground arith
        | inl (u, q) ↦ (q, ground arith, ground arith)
      ]

  set_owner-mutate :
      (delegated : Bool) (client : K.Client) (cluster : Cluster) (tcp : TenantControlPlane F)
      (kcp : KamajiControlPlane F) {tcp' : TenantControlPlane F}
      → check_sans kcp.spec.network.cert_sans ≡ ok tt
      → set_owner K delegated client (with_core_dns_default kcp) (dressed cluster tcp kcp)
        ≡ (ok tt, tcp')
      → mutate K delegated client cluster (tcp, kcp) ≡ (ok tt, (tcp', with_core_dns_default kcp))
  unfolding mutate
  set_owner-mutate delegated client cluster tcp kcp {tcp'} q h = ground arith

  module _ (O : IsLawfulOwner K.set_controller_reference) where
    set_owner-owners :
        (delegated : Bool) (client : K.Client) (kcp : KamajiControlPlane F)
        (tcp : TenantControlPlane F) {tcp' : TenantControlPlane F}
        → set_owner K delegated client kcp tcp ≡ (ok tt, tcp')
        → tcp'
          ≡ record tcp { meta = record tcp.meta { owner_references = tcp'.meta.owner_references } }
    unfolding set_owner
    set_owner-owners true client kcp tcp h = ground arith
    set_owner-owners false client kcp tcp h =
        elim (Result-cases (K.set_controller_reference kcp client tcp.meta)) [
          | inr (e, q) ↦ ground arith
          | inl (m, q) ↦ ground (arith, O.only_owners kcp client tcp.meta q)
        ]

    set_owner-again :
        (delegated : Bool) (client : K.Client) (kcp : KamajiControlPlane F)
        (tcp next : TenantControlPlane F) {tcp' : TenantControlPlane F}
        → set_owner K delegated client kcp tcp ≡ (ok tt, tcp')
        → next.meta.namespace ≡ tcp.meta.namespace
        → next.meta.owner_references ≡ tcp'.meta.owner_references
        → set_owner K delegated client kcp next ≡ (ok tt, next)
    unfolding set_owner
    set_owner-again true client kcp tcp next h m n = refl
    set_owner-again false client kcp tcp next h m n =
        elim (Result-cases (K.set_controller_reference kcp client tcp.meta)) [
          | inr (e, q) ↦ ground arith
          | inl (owned, q) ↦
              let same : next.meta.owner_references ≡ owned.owner_references = ground arith in
              ground (arith, O.once kcp client tcp.meta next.meta q m same)
        ]

    -- The object that the second run gives to `set_owner`, and gets back.
    abbrev repeated : Cluster → TenantControlPlane F → KamajiControlPlane F → TenantControlPlane F
    repeated cluster tcp kcp = record tcp {
      meta = record tcp.meta {
        annotations =
            some
              (tenant_annotations K (entries kcp.meta.annotations) (entries tcp.meta.annotations));
      };
    }

    dressed-repeated :
        (cluster : Cluster) (tcp : TenantControlPlane F) (kcp : KamajiControlPlane F)
        {tcp' : TenantControlPlane F}
        → tcp' ≡ record (dressed cluster tcp kcp) {
          meta = record (dressed cluster tcp kcp).meta {
            owner_references = tcp'.meta.owner_references;
          };
        }
        → dressed cluster tcp' (with_core_dns_default kcp) ≡ repeated cluster tcp' kcp
    unfolding tenant_meta
    dressed-repeated cluster tcp kcp {tcp'} made =
        let labels : kcp.meta.labels ≡ tcp'.meta.labels =
          ap (λ (t : TenantControlPlane F). t.meta.labels) (sym made) in
        let sent : tcp'.spec ≡ desired cluster kcp.spec tcp.spec =
          ap (λ (t : TenantControlPlane F). t.spec) made in
        let spec : desired cluster (with_core_dns_default kcp).spec tcp'.spec ≡ tcp'.spec =
          desired-default cluster kcp tcp'.spec
          ∙ ap (desired cluster kcp.spec) sent
          ∙ desired_twice cluster kcp.spec tcp.spec
          ∙ sym sent in
        let own = default-meta kcp in
        λ i. record tcp' {
          meta = record tcp'.meta {
            annotations = some (
                tenant_annotations K (entries (own i).annotations) (entries tcp'.meta.annotations));
            labels = (ap (λ (m : ObjectMeta). m.labels) own ∙ labels) i;
          };
          spec = spec i;
        }

    -- If SetControllerReference writes only owners, each once, a run of the closure on what a run
    -- that has succeeded has made succeeds too, if no annotation of the KamajiControlPlane stands
    -- twice. It leaves the KamajiControlPlane and all of the TenantControlPlane as they are, but for
    -- the order in which its annotations are written down: as a map they are the same.
    pub mutate-repeats :
        (delegated : Bool) (client : K.Client) (cluster : Cluster) (tcp : TenantControlPlane F)
        (kcp : KamajiControlPlane F) {tcp' : TenantControlPlane F} {kcp' : KamajiControlPlane F}
        → NodupKeys (entries kcp.meta.annotations)
        → mutate K delegated client cluster (tcp, kcp) ≡ (ok tt, (tcp', kcp'))
        → let annotations =
            tenant_annotations K (entries kcp.meta.annotations) (entries tcp'.meta.annotations) in
          (mutate K delegated client cluster (tcp', kcp') ≡ (
            ok tt,
            (record tcp' { meta = record tcp'.meta { annotations = some annotations } }, kcp'),
          ))
          × (view annotations ≡ view (entries tcp'.meta.annotations))
    unfolding tenant_meta
    mutate-repeats delegated client cluster tcp kcp {tcp'} {kcp'} u h =
        let kcp1 = with_core_dns_default kcp in
        let (q, defaulted, owned) = mutate-set_owner delegated client cluster tcp kcp h in
        let made = set_owner-owners delegated client kcp1 _ owned in
        let same = ap (λ (t : TenantControlPlane F). t.meta.namespace) made in
        let again =
          set_owner-again delegated client kcp1 _ (dressed cluster tcp' kcp1) owned same refl in
        let run : mutate K delegated client cluster (tcp', kcp1)
            ≡ (ok tt, (dressed cluster tcp' kcp1, with_core_dns_default kcp1)) =
          set_owner-mutate delegated client cluster tcp' kcp1 (ap check_sans (default-sans kcp) ∙ q)
            (ap (λ k. set_owner K delegated client k (dressed cluster tcp' kcp1))
                (default_twice kcp)
              ∙ again) in
        let annotated : entries tcp'.meta.annotations
            ≡ tenant_annotations K (entries kcp.meta.annotations) (entries tcp.meta.annotations) =
          ap (λ (t : TenantControlPlane F). entries t.meta.annotations) made in
        (
          ap (λ k. mutate K delegated client cluster (tcp', k)) defaulted
              ∙ run
              ∙ (λ i. (ok tt, (dressed-repeated cluster tcp kcp made i, default_twice kcp i)))
              ∙ (λ i. (ok tt, (repeated cluster tcp' kcp, sym defaulted i))),
          ap (λ m. view (tenant_annotations K (entries kcp.meta.annotations) m)) annotated
              ∙ (view-tenant_annotations K {to = entries tcp.meta.annotations} u
                  (Perm.refl (entries kcp.meta.annotations)) refl).1
              ∙ ap view (sym annotated),
        )
