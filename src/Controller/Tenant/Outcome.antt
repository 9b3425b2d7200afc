-- ===== src/Controller/Tenant/Outcome.antt =====
-- What the closure of CreateOrUpdate has done when it succeeds.
use cluster_api_control_plan.Base.{◌≡◌, refl, ap, sym, ◌∙◌, Bool, true, false, arith, inl, inr}
use cluster_api_control_plan.Errors.{Result, ok, Result-cases}
use cluster_api_control_plan.Objects.{
  Foreign, KamajiControlPlane, KamajiControlPlaneSpec, TenantControlPlane, TenantSpec, Cluster,
}
use cluster_api_control_plan.Kube.{Kube}
use cluster_api_control_plan.Controller.Tenant.Metadata.{tenant_meta}
use cluster_api_control_plan.Controller.Tenant.Settings.{tenant_settings, with_core_dns_default}
use cluster_api_control_plan.Controller.Tenant.Exposure.{check_sans, tenant_exposure}
use cluster_api_control_plan.Controller.Tenant.Upsert.{set_owner, mutate}

module _ {F : Foreign} where
  -- The specification that is sent.
  abbrev pub desired : Cluster → KamajiControlPlaneSpec F → TenantSpec F → TenantSpec F
  desired cluster spec t = tenant_exposure spec (tenant_settings cluster spec t)

module _ {F : Foreign} (K : Kube F) where
  spec-set_owner :
      (delegated : Bool) (client : K.Client) (kcp : KamajiControlPlane F)
      (tcp : TenantControlPlane F)
      → (set_owner K delegated client kcp tcp).1.spec ≡ tcp.spec
  unfolding set_owner
  spec-set_owner true client kcp tcp = refl
  spec-set_owner false client kcp tcp = ground arith

  abbrev Outcome : Type 0
  Outcome = Result (Unit {0}) × (TenantControlPlane F × KamajiControlPlane F)

  pub record IsMutated (cluster : Cluster) (tcp : TenantControlPlane F) (kcp : KamajiControlPlane F)
      (tcp' : TenantControlPlane F) (kcp' : KamajiControlPlane F) : Type 0 where
    pub is_checked : check_sans kcp.spec.network.cert_sans ≡ ok tt
    pub spec_desired : tcp'.spec ≡ desired cluster kcp.spec tcp.spec
    pub kcp_defaulted : kcp' ≡ with_core_dns_default kcp

  pub mutate-IsMutated :
      (delegated : Bool) (client : K.Client) (cluster : Cluster) (tcp : TenantControlPlane F)
      (kcp : KamajiControlPlane F) {tcp' : TenantControlPlane F} {kcp' : KamajiControlPlane F}
      → mutate K delegated client cluster (tcp, kcp) ≡ (ok tt, (tcp', kcp'))
      → IsMutated cluster tcp kcp tcp' kcp'
  unfolding mutate
  mutate-IsMutated delegated client cluster tcp kcp {tcp'} h =
      elim (Result-cases (check_sans kcp.spec.network.cert_sans)) [
        | inr (e, q) ↦ ground arith
        | inl (u, q) ↦
            let tcp2 = record tcp {
              meta = tenant_meta K kcp tcp.meta;
              spec = desired cluster kcp.spec tcp.spec;
            } in
            let owned = spec-set_owner delegated client (with_core_dns_default kcp) tcp2 in
            let result = mutate K delegated client cluster (tcp, kcp) in
            let sent : result.1.0.spec ≡ desired cluster kcp.spec tcp.spec = rw (q, mutate) owned in
            let made : result.1.0 ≡ tcp' = ap (λ (o : Outcome). o.1.0) h in
            record {
              is_checked = q;
              spec_desired = sym (ap (λ (x : TenantControlPlane F). x.spec) made) ∙ sent;
              kcp_defaulted = ground arith;
            }
      ]
