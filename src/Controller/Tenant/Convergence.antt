-- ===== src/Controller/Tenant/Convergence.antt =====
-- A second pass of the closure of CreateOrUpdate over its own results.
use cluster_api_control_plan.Controller.Tenant.Outcome.{desired, mutate-IsMutated}
use cluster_api_control_plan.Base.{sym, String, ◌≡◌, refl, ◌∙◌, Bool, arith, ap}
use cluster_api_control_plan.Errors.{ok}
use cluster_api_control_plan.Objects.{
  TenantDeployment, Foreign, KamajiControlPlane, KamajiControlPlaneSpec, TenantControlPlane,
  Cluster, NetworkProfile, ClusterNetwork, TenantSpec,
}
use cluster_api_control_plan.Kube.{Kube}
use cluster_api_control_plan.Controller.Tenant.Settings.{
  text_or, with_core_dns_default, tenant_settings, tenant_network, tenant_addons, tenant_components,
}
use cluster_api_control_plan.Controller.Tenant.Exposure.{
  balanced, tenant_probes, tenant_exposure, exposed_network, exposed_deployment,
}
use cluster_api_control_plan.Controller.Tenant.Upsert.{mutate}

text_or_twice : (new old : String) → text_or new (text_or new old) ≡ text_or new old
text_or_twice new old = ground arith

module _ {F : Foreign} where
  network_twice :
      (net : ClusterNetwork) (spec : KamajiControlPlaneSpec F) (np : NetworkProfile)
      → let once = exposed_network spec.network (tenant_network net spec np) in
        exposed_network spec.network (tenant_network net spec once) ≡ once
  unfolding exposed_network tenant_network balanced
  network_twice net spec np = ground arith

  deployment_twice :
      (spec : KamajiControlPlaneSpec F) (d : TenantDeployment F)
      → exposed_deployment spec
          (tenant_components spec (exposed_deployment spec (tenant_components spec d)))
        ≡ exposed_deployment spec (tenant_components spec d)
  unfolding exposed_deployment tenant_components
  deployment_twice spec d = refl

  pub desired_twice :
      (cluster : Cluster) (spec : KamajiControlPlaneSpec F) (t : TenantSpec F)
      → desired cluster spec (desired cluster spec t) ≡ desired cluster spec t
  unfolding tenant_exposure tenant_settings
  desired_twice cluster spec t = ground (
    arith,
    network_twice cluster.cluster_network spec t.network_profile,
    deployment_twice spec t.deployment,
    text_or_twice spec.data_store_name t.data_store,
    text_or_twice spec.data_store_schema t.data_store_schema,
    text_or_twice spec.data_store_username t.data_store_username,
  )

  pub default_twice :
      (kcp : KamajiControlPlane F)
      → with_core_dns_default (with_core_dns_default kcp) ≡ with_core_dns_default kcp
  unfolding with_core_dns_default
  default_twice kcp = ground arith

  pub desired-default :
      (cluster : Cluster) (kcp : KamajiControlPlane F) (t : TenantSpec F)
      → desired cluster (with_core_dns_default kcp).spec t ≡ desired cluster kcp.spec t
  unfolding tenant_exposure tenant_settings with_core_dns_default tenant_addons tenant_network
      exposed_network tenant_components exposed_deployment tenant_probes
  desired-default cluster kcp t = ground arith

module _ {F : Foreign} (K : Kube F) where
  -- When the closure has succeeded, a second run on its results leaves the specification of the
  -- TenantControlPlane and the KamajiControlPlane as they are.
  mutate_converges :
      (delegated : Bool) (client : K.Client) (cluster : Cluster) (tcp : TenantControlPlane F)
      (kcp : KamajiControlPlane F) {tcp' tcp'' : TenantControlPlane F}
      {kcp' kcp'' : KamajiControlPlane F}
      → mutate K delegated client cluster (tcp, kcp) ≡ (ok tt, (tcp', kcp'))
      → mutate K delegated client cluster (tcp', kcp') ≡ (ok tt, (tcp'', kcp''))
      → (tcp''.spec ≡ tcp'.spec) × (kcp'' ≡ kcp')
  mutate_converges delegated client cluster tcp kcp {tcp'} {kcp'} h k =
      let m = mutate-IsMutated K delegated client cluster tcp kcp h in
      let n = mutate-IsMutated K delegated client cluster tcp' kcp' k in
      let e : desired cluster kcp'.spec tcp'.spec ≡ desired cluster kcp.spec tcp'.spec =
        ap (λ (x : KamajiControlPlane F). desired cluster x.spec tcp'.spec) m.kcp_defaulted
        ∙ desired-default cluster kcp tcp'.spec in
      let d : desired cluster kcp.spec tcp'.spec ≡ desired cluster kcp.spec tcp.spec =
        ap (desired cluster kcp.spec) m.spec_desired ∙ desired_twice cluster kcp.spec tcp.spec in
      (
        n.spec_desired ∙ e ∙ d ∙ sym m.spec_desired,
        n.kcp_defaulted
            ∙ ap with_core_dns_default m.kcp_defaulted
            ∙ default_twice kcp
            ∙ sym m.kcp_defaulted,
      )
