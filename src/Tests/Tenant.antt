-- ===== src/Tests/Tenant.antt =====
-- The theorems on the TenantControlPlane at concrete objects.
use cluster_api_control_plan.GoNet.{
  split_last, split_first, has_char, check_brackets, plain, after_bracket, bracketed,
  split_host_port,
}
use cluster_api_control_plan.Controller.Tenant.{
  with_core_dns_default, mutate, tenant_annotations, check_sans, set_owner, gateway_sans,
  ingress_sans,
}
use cluster_api_control_plan.Base.{
  String, ◌≡◌, refl, ◌∷◌, [], ◌++◌, true, false, some, none, All, lookup, Entries,
}
use cluster_api_control_plan.Errors.{ok}
use cluster_api_control_plan.Objects.{ProbeSet, TenantControlPlane, KamajiControlPlane}
use cluster_api_control_plan.Controller.Tenant.Annotations.{
  lookup-tenant_annotations, view-tenant_annotations,
}
use cluster_api_control_plan.Base.Maps.View.{view}
use mathlib.Core.List.Perm
use cluster_api_control_plan.Controller.Tenant.Sans.{ProbesOf, probes-mutate}
use cluster_api_control_plan.Base.{entries, arith}
use cluster_api_control_plan.Kube.Laws.{IsLawfulOwner}
use cluster_api_control_plan.Controller.Tenant.Repetition.{mutate-repeats}
use cluster_api_control_plan.Controller.Tenant.Sans.{IsPortless, cert_sans-mutate}
use cluster_api_control_plan.Tests.Fixtures.{component, deployment, trivial, kcp, tenant, cluster}
use cluster_api_control_plan.Tests.Memory.{memory}

sans_checked : check_sans kcp.spec.network.cert_sans ≡ ok tt
unfolding check_sans split_host_port bracketed after_bracket plain check_brackets has_char
    split_first split_last
sans_checked = refl

abbrev pass :
    TenantControlPlane trivial × KamajiControlPlane trivial
    → TenantControlPlane trivial × KamajiControlPlane trivial
pass s = (mutate memory true true cluster s).1

abbrev once : TenantControlPlane trivial × KamajiControlPlane trivial
once = pass (tenant, kcp)

abbrev twice : TenantControlPlane trivial × KamajiControlPlane trivial
twice = pass once

first_pass : mutate memory true true cluster (tenant, kcp) ≡ (ok tt, once)
unfolding mutate set_owner check_sans split_host_port bracketed after_bracket plain check_brackets
    has_char split_first split_last
first_pass = refl

second_pass : mutate memory true true cluster once ≡ (ok tt, twice)
unfolding mutate with_core_dns_default set_owner check_sans split_host_port bracketed after_bracket
    plain check_brackets has_char split_first split_last
second_pass = refl

cert_sans-mutate_example :
    All IsPortless kcp.spec.network.cert_sans
    × (once.0.spec.network_profile.cert_sans
        ≡ kcp.spec.network.cert_sans
          ++ gateway_sans kcp.spec.network.gateway
          ++ ingress_sans kcp.spec.network.ingress)
cert_sans-mutate_example = cert_sans-mutate memory true true cluster tenant kcp first_pass

abbrev annotations : Entries String
annotations = ("team", "a") ∷ ("kamaji.clastix.io/kubeconfig-secret-key", "super-admin.conf") ∷ []

lookup-tenant_annotations_example :
    lookup "team" (tenant_annotations memory annotations (("team", "b") ∷ [])) ≡ some "a"
unfolding lookup
lookup-tenant_annotations_example =
    lookup-tenant_annotations memory annotations (("team", "b") ∷ []) "team" (refl, (refl, tt))

-- The same annotations, met in the other order.
abbrev reordered : Entries String
reordered = ("kamaji.clastix.io/kubeconfig-secret-key", "super-admin.conf") ∷ ("team", "a") ∷ []

abbrev present : Entries String
present = ("team", "b") ∷ ("owner", "c") ∷ []

view-tenant_annotations_example :
    (view (tenant_annotations memory annotations present)
      ≡ view (tenant_annotations memory reordered present))
    × (view (tenant_annotations memory reordered (tenant_annotations memory annotations present))
        ≡ view (tenant_annotations memory annotations present))
unfolding lookup
view-tenant_annotations_example =
    view-tenant_annotations memory {from = annotations} {from' = reordered} {to = present}
      {to' = present} (refl, (refl, tt)) (Perm.swap _ _ []) refl

owners-IsLawful : IsLawfulOwner memory.set_controller_reference
owners-IsLawful = record {
  only_owners = λ k c m h. ground (arith, h);
  once = λ k c m n h same own. ground (arith, h, own);
}

abbrev probes : ProbeSet trivial
probes = record { liveness = some tt; readiness = none; startup = some tt }

-- All four have probes.
abbrev probed : KamajiControlPlane trivial
probed = record kcp {
  spec = record kcp.spec {
    fields = record kcp.spec.fields {
      api_server = record component { probes = some probes };
      controller_manager = record component { probes = some probes };
      scheduler = record component { probes = some probes };
      deployment = record deployment { probes = some probes };
    };
  };
}

abbrev probed_once : TenantControlPlane trivial × KamajiControlPlane trivial
probed_once = (mutate memory true true cluster (tenant, probed)).1

probed_pass : mutate memory true true cluster (tenant, probed) ≡ (ok tt, probed_once)
unfolding mutate set_owner check_sans split_host_port bracketed after_bracket plain check_brackets
    has_char split_first split_last
probed_pass = refl

probes-mutate_example : ProbesOf probed.spec probed_once.0.spec.deployment.probes
probes-mutate_example = probes-mutate memory true true cluster tenant probed probed_pass

abbrev annotated : KamajiControlPlane trivial
annotated = record kcp { meta = record kcp.meta { annotations = some annotations } }

-- The TenantControlPlane stands in the same cluster, so it gets an owner.
abbrev made : TenantControlPlane trivial × KamajiControlPlane trivial
made = (mutate memory false true cluster (tenant, annotated)).1

made_first : mutate memory false true cluster (tenant, annotated) ≡ (ok tt, made)
unfolding mutate set_owner check_sans split_host_port bracketed after_bracket plain check_brackets
    has_char split_first split_last
made_first = refl

abbrev repeated : Entries String
repeated = tenant_annotations memory annotations (entries made.0.meta.annotations)

mutate-repeats_example :
    (mutate memory false true cluster made ≡ (
      ok tt,
      (record made.0 { meta = record made.0.meta { annotations = some repeated } }, made.1),
    ))
    × (view repeated ≡ view (entries made.0.meta.annotations))
unfolding lookup
mutate-repeats_example =
    mutate-repeats memory owners-IsLawful false true cluster tenant annotated (refl, (refl, tt))
      made_first
