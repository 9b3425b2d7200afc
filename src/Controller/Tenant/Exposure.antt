-- ===== src/Controller/Tenant/Exposure.antt =====
-- The certificate SANs and what is assigned after them: Gateway, Ingress, load balancer, probes and
-- the options of the Deployment.
use cluster_api_control_plan.Base.{
  String, ◌<>◌, ◌==◌, Bool, true, false, Option, none, some, List, [], ◌∷◌, ◌++◌, if◌then◌else◌,
}
use cluster_api_control_plan.GoNet.{split_host_port, HostPort, host_port, addr_error}
use cluster_api_control_plan.Errors.{
  Result, ok, err, prefixed, sentinel, err_unsupported_certificate_san,
}
use cluster_api_control_plan.Objects.{
  Foreign, KamajiControlPlaneSpec, NetworkComponent, GatewayComponent, IngressComponent,
  LoadBalancerConfig, ControlPlaneProbes, NetworkProfile, TenantDeployment, TenantSpec, GatewaySpec,
  IngressSpec, ParentReference,
}

-- Whether `net.SplitHostPort` accepts a text, and the host that is taken of a hostname: all of it
-- if there is no port.
abbrev pub has_port : HostPort → Bool
has_port (host_port host port) = true
has_port (addr_error e) = false

abbrev pub host_or : String → HostPort → String
host_or hostname (host_port host port) = host
host_or hostname (addr_error e) = hostname

unfoldable pub host_of : String → String
host_of hostname = host_or hostname (split_host_port hostname)

-- The first entry with a port is refused.
unfoldable pub check_sans : List String → Result (Unit {0})
check_sans [] = ok tt
check_sans (san ∷ sans) =
    let rest = check_sans sans in
    if has_port (split_host_port san)
    then err
        (prefixed ("entry " <> san <> " is invalid: ") (sentinel err_unsupported_certificate_san))
    else rest

abbrev pub gateway_sans : Option GatewayComponent → List String
gateway_sans none = []
gateway_sans (some g) = host_of g.hostname ∷ []

abbrev pub ingress_sans : Option IngressComponent → List String
ingress_sans none = []
ingress_sans (some i) = host_of i.hostname ∷ []

abbrev parent_ref : GatewayComponent → ParentReference
parent_ref g = record {
  name = g.name;
  namespace = some g.namespace;
  section_name = if g.section_name == "" then none else some g.section_name;
  port = g.port;
}

abbrev gateway_spec : GatewayComponent → GatewaySpec
gateway_spec g = record {
  hostname = host_of g.hostname;
  gateway_parent_refs = parent_ref g ∷ [];
  additional_metadata = record { labels = g.extra_labels; annotations = g.extra_annotations };
}

abbrev ingress_spec : IngressComponent → IngressSpec
ingress_spec i = record {
  additional_metadata = record { labels = i.extra_labels; annotations = i.extra_annotations };
  ingress_class_name = i.class_name;
  hostname = i.hostname;
}

abbrev pub some_or {ℓ} : {A : Type ℓ} → Option A → Option A → Option A
some_or none old = old
some_or (some a) old = some a

-- The class and the source ranges of the load balancer are assigned only if they are given.
unfoldable pub balanced : Option LoadBalancerConfig → NetworkProfile → NetworkProfile
balanced none np = np
balanced (some c) np = record np {
  load_balancer_class = some_or c.class np.load_balancer_class;
  load_balancer_source_ranges = some_or c.source_ranges np.load_balancer_source_ranges;
}

module _ {F : Foreign} where
  unfoldable pub exposed_network : NetworkComponent F → NetworkProfile → NetworkProfile
  exposed_network network np = balanced network.load_balancer_config (record np {
    cert_sans = network.cert_sans ++ gateway_sans network.gateway ++ ingress_sans network.ingress;
  })

  -- Probes are set only if the Deployment and all three components have some.
  unfoldable pub tenant_probes : KamajiControlPlaneSpec F → Option (ControlPlaneProbes F)
  tenant_probes spec = elim spec.deployment.probes [
    | none ↦ none
    | some global ↦ elim spec.api_server.probes [
      | none ↦ none
      | some a ↦ elim spec.controller_manager.probes [
        | none ↦ none
        | some c ↦ elim spec.scheduler.probes [
          | none ↦ none
          | some s ↦ some (record {
            api_server = some a;
            controller_manager = some c;
            scheduler = some s;
            liveness = global.liveness;
            readiness = global.readiness;
            startup = global.startup;
          })
        ]
      ]
    ]
  ]

  unfoldable pub exposed_deployment :
      KamajiControlPlaneSpec F → TenantDeployment F → TenantDeployment F
  exposed_deployment spec d = record d {
    node_selector = spec.deployment.node_selector;
    runtime_class_name = spec.deployment.runtime_class_name;
    service_account_name = spec.deployment.service_account_name;
    additional_metadata = spec.deployment.additional_metadata;
    pod_additional_metadata = spec.deployment.pod_additional_metadata;
    strategy = spec.deployment.strategy;
    affinity = spec.deployment.affinity;
    tolerations = spec.deployment.tolerations;
    topology_spread_constraints = spec.deployment.topology_spread_constraints;
    additional_init_containers = spec.deployment.extra_init_containers;
    additional_containers = spec.deployment.extra_containers;
    additional_volumes = spec.deployment.extra_volumes;
    probes = tenant_probes spec;
  }

  unfoldable pub tenant_exposure : KamajiControlPlaneSpec F → TenantSpec F → TenantSpec F
  tenant_exposure spec t = record t {
    network_profile = exposed_network spec.network t.network_profile;
    gateway = elim spec.network.gateway [ none ↦ none | some g ↦ some (gateway_spec g) ];
    ingress = elim spec.network.ingress [ none ↦ none | some i ↦ some (ingress_spec i) ];
    deployment = exposed_deployment spec t.deployment;
  }
