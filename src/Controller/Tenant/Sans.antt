-- ===== src/Controller/Tenant/Sans.antt =====
-- The certificate SANs, the version and the probes of a TenantControlPlane.
use cluster_api_control_plan.Controller.Tenant.Outcome.{mutate-IsMutated}
use cluster_api_control_plan.Base.{
  String, ◌<>◌, ◌≡◌, ap, ◌∙◌, Bool, true, false, ◌&&◌, is_some, List, [], ◌∷◌, ◌++◌, All, arith,
  Bool-cases, Option-cases, Option, some, none, inl, inr,
}
use cluster_api_control_plan.GoNet.{split_host_port, has_prefix}
use cluster_api_control_plan.GoNet.Splitting.{has_prefix-append}
use cluster_api_control_plan.Errors.{ok}
use cluster_api_control_plan.Objects.{
  TenantSpec, Foreign, KamajiControlPlane, KamajiControlPlaneSpec, TenantControlPlane, Cluster,
  ProbeSet, ControlPlaneProbes,
}
use mathlib.Core.Path.{subst⁻¹}
use cluster_api_control_plan.Kube.{Kube}
use cluster_api_control_plan.Controller.Tenant.Settings.{normalized_version, tenant_settings}
use cluster_api_control_plan.Controller.Tenant.Exposure.{
  has_port, check_sans, gateway_sans, ingress_sans, tenant_probes, tenant_exposure, balanced,
  exposed_network, exposed_deployment,
}
use cluster_api_control_plan.Controller.Tenant.Upsert.{mutate}

-- `net.SplitHostPort` fails on the text.
abbrev pub IsPortless : String → Type 0
IsPortless san = has_port (split_host_port san) ≡ false

check_sans-IsPortless : (sans : List String) → check_sans sans ≡ ok tt → All IsPortless sans
unfolding check_sans
check_sans-IsPortless [] h = tt
check_sans-IsPortless (san ∷ sans) h = ground (arith, check_sans-IsPortless sans)

cert_sans-exposure :
    {F : Foreign} (cluster : Cluster) (tcp : TenantControlPlane F) (kcp : KamajiControlPlane F)
    → (tenant_exposure kcp.spec
        (tenant_settings cluster kcp.spec tcp.spec)).network_profile.cert_sans
      ≡ kcp.spec.network.cert_sans
        ++ gateway_sans kcp.spec.network.gateway
        ++ ingress_sans kcp.spec.network.ingress
unfolding tenant_exposure exposed_network balanced
cert_sans-exposure cluster tcp kcp = ground arith

module _ {F : Foreign} (K : Kube F) where
  -- When the closure succeeds, no SAN that the KamajiControlPlane lists has a port, and the SANs of
  -- the TenantControlPlane are those, then the host of the Gateway, then that of the Ingress.
  pub cert_sans-mutate :
      (delegated : Bool) (client : K.Client) (cluster : Cluster) (tcp : TenantControlPlane F)
      (kcp : KamajiControlPlane F) {tcp' : TenantControlPlane F} {kcp' : KamajiControlPlane F}
      → mutate K delegated client cluster (tcp, kcp) ≡ (ok tt, (tcp', kcp'))
      → All IsPortless kcp.spec.network.cert_sans
        × (tcp'.spec.network_profile.cert_sans
            ≡ kcp.spec.network.cert_sans
              ++ gateway_sans kcp.spec.network.gateway
              ++ ingress_sans kcp.spec.network.ingress)
  cert_sans-mutate delegated client cluster tcp kcp h =
      let m = mutate-IsMutated K delegated client cluster tcp kcp h in
      (
        check_sans-IsPortless kcp.spec.network.cert_sans m.is_checked,
        ap (λ (s : TenantSpec F). s.network_profile.cert_sans) m.spec_desired
            ∙ cert_sans-exposure cluster tcp kcp,
      )

-- The version that is sent begins with "v", and is not changed by another pass.
normalized_version-prefix :
    (version : String)
    → (has_prefix (normalized_version version) "v" ≡ true)
      × (normalized_version (normalized_version version) ≡ normalized_version version)
unfolding normalized_version
normalized_version-prefix version = elim (Bool-cases (has_prefix version "v")) [
  | inl y ↦ (rw (y, y), rw y (rw y))
  | inr n ↦
      let p : has_prefix ("v" <> version) "v" ≡ true = has_prefix-append "v" version in
      (rw (n, p), rw n (rw p))
]

-- The probes of a Deployment and of three components together.
abbrev pub probes_of :
    {F : Foreign} → ProbeSet F → ProbeSet F → ProbeSet F → ProbeSet F → ControlPlaneProbes F
probes_of global a c s = record {
  api_server = some a;
  controller_manager = some c;
  scheduler = some s;
  liveness = global.liveness;
  readiness = global.readiness;
  startup = global.startup;
}

-- Which probes a TenantControlPlane is to have: the Deployment's own three, with the sets of the three
-- components, or none at all if one of the four is missing.
pub data ProbesOf {F : Foreign} (spec : KamajiControlPlaneSpec F)
    : Option (ControlPlaneProbes F) → Type 0 where
  all_given :
      (global a c s : ProbeSet F)
      → spec.deployment.probes ≡ some global
      → spec.api_server.probes ≡ some a
      → spec.controller_manager.probes ≡ some c
      → spec.scheduler.probes ≡ some s
      → ProbesOf spec (some (probes_of global a c s))
  one_missing :
      (is_some spec.deployment.probes
          && is_some spec.api_server.probes
          && is_some spec.controller_manager.probes
          && is_some spec.scheduler.probes)
        ≡ false
      → ProbesOf spec none

tenant_probes-ProbesOf :
    {F : Foreign} (spec : KamajiControlPlaneSpec F) → ProbesOf spec (tenant_probes spec)
unfolding tenant_probes
tenant_probes-ProbesOf spec = elim (Option-cases spec.deployment.probes) [
  | inl n ↦ let p : ProbesOf spec none = one_missing (ground arith) in ground (arith, p)
  | inr (global, e) ↦ elim (Option-cases spec.api_server.probes) [
    | inl n ↦ let p : ProbesOf spec none = one_missing (ground arith) in ground (arith, p)
    | inr (a, e1) ↦ elim (Option-cases spec.controller_manager.probes) [
      | inl n ↦ let p : ProbesOf spec none = one_missing (ground arith) in ground (arith, p)
      | inr (c, e2) ↦ elim (Option-cases spec.scheduler.probes) [
        | inl n ↦ let p : ProbesOf spec none = one_missing (ground arith) in ground (arith, p)
        | inr (s, e3) ↦
            let p : ProbesOf spec (some (probes_of global a c s)) =
              all_given global a c s e e1 e2 e3 in
            ground (arith, p)
      ]
    ]
  ]
]

probes-exposure :
    {F : Foreign} (cluster : Cluster) (tcp : TenantControlPlane F) (kcp : KamajiControlPlane F)
    → (tenant_exposure kcp.spec (tenant_settings cluster kcp.spec tcp.spec)).deployment.probes
      ≡ tenant_probes kcp.spec
unfolding tenant_exposure exposed_deployment
probes-exposure cluster tcp kcp = ground arith

module _ {F : Foreign} (K : Kube F) where
  -- When the closure succeeds, the TenantControlPlane has the three probes of the KamajiControlPlane's
  -- Deployment and the probes of its API server, controller manager and scheduler, if all four have
  -- some; if one of them has none, the TenantControlPlane has no probes, whatever it had before.
  pub probes-mutate :
      (delegated : Bool) (client : K.Client) (cluster : Cluster) (tcp : TenantControlPlane F)
      (kcp : KamajiControlPlane F) {tcp' : TenantControlPlane F} {kcp' : KamajiControlPlane F}
      → mutate K delegated client cluster (tcp, kcp) ≡ (ok tt, (tcp', kcp'))
      → ProbesOf kcp.spec tcp'.spec.deployment.probes
  probes-mutate delegated client cluster tcp kcp h =
      let m = mutate-IsMutated K delegated client cluster tcp kcp h in
      subst⁻¹ (ProbesOf kcp.spec)
        (ap (λ (s : TenantSpec F). s.deployment.probes) m.spec_desired
          ∙ probes-exposure cluster tcp kcp)
        (tenant_probes-ProbesOf kcp.spec)
