-- ===== src/Tests/Fixtures.antt =====
-- Objects for the tests.
use cluster_api_control_plan.Base.{String, false, true, none, some, [], ◌∷◌}
use cluster_api_control_plan.Base.Int.{pos}
use cluster_api_control_plan.Objects.{
  Foreign, ObjectMeta, AdditionalMetadata, ControlPlaneComponent, ExternalClusterReference,
  KamajiControlPlane, KamajiControlPlaneStatus, NetworkComponent, DeploymentComponent,
  TenantControlPlane, TenantSpec, TenantStatus, Cluster, Secret, KamajiControlPlaneFields,
  GatewayComponent, IngressComponent, version_ready,
}

abbrev pub trivial : Foreign
trivial = record {
  VolumeMount = Unit;
  ResourceRequirements = Unit;
  Probe = Unit;
  AdditionalPort = Unit;
  AddonSpec = Unit;
  empty_addon = tt;
  OtherAddons = Unit;
  DataStoreOverride = Unit;
  AdmissionControllers = Unit;
  KubeletSpec = Unit;
  DeploymentStrategy = Unit;
  Affinity = Unit;
  Toleration = Unit;
  TopologySpreadConstraint = Unit;
  Container = Unit;
  Volume = Unit;
  OtherTenantSpec = Unit;
}

abbrev pub meta : String → String → ObjectMeta
meta namespace name = record {
  name = name;
  namespace = namespace;
  uid = "u1";
  resource_version = "7";
  generation = 3;
  labels = none;
  annotations = none;
  owner_references = [];
  finalizers = [];
  deletion_timestamp = none;
}

abbrev pub no_metadata : AdditionalMetadata
no_metadata = record { labels = none; annotations = none }

abbrev pub component : ControlPlaneComponent trivial
component = record {
  extra_volume_mounts = [];
  extra_args = [];
  resources = tt;
  container_image_name = "";
  probes = none;
}

abbrev pub gateway : GatewayComponent
gateway = record {
  name = "gw";
  namespace = "infra";
  hostname = "gw.example.com";
  section_name = "";
  port = none;
  extra_labels = none;
  extra_annotations = none;
}

abbrev pub ingress : IngressComponent
ingress = record {
  class_name = "nginx";
  hostname = "cp.example.com";
  extra_labels = none;
  extra_annotations = none;
}

abbrev pub network : NetworkComponent trivial
network = record {
  load_balancer_config = none;
  gateway = some gateway;
  ingress = some ingress;
  service_type = "LoadBalancer";
  service_address = "";
  advertise_address = "";
  service_labels = none;
  service_annotations = none;
  additional_service_ports = [];
  cert_sans = "api.example.com" ∷ [];
  dns_service_ips = "10.96.0.10" ∷ [];
}

abbrev pub reference : ExternalClusterReference
reference = record {
  kubeconfig_secret_name = "kc";
  kubeconfig_secret_key = "conf";
  kubeconfig_secret_namespace = "";
  deployment_namespace = "tenants";
}

abbrev pub deployment : DeploymentComponent trivial
deployment = record {
  node_selector = none;
  runtime_class_name = "";
  additional_metadata = no_metadata;
  pod_additional_metadata = no_metadata;
  service_account_name = "";
  strategy = tt;
  affinity = none;
  tolerations = [];
  topology_spread_constraints = [];
  extra_init_containers = [];
  extra_containers = [];
  extra_volumes = [];
  external_cluster_reference = some reference;
  probes = none;
}

abbrev pub kcp_fields : KamajiControlPlaneFields trivial
kcp_fields = record {
  data_store_name = "etcd";
  data_store_schema = "";
  data_store_username = "";
  data_store_overrides = [];
  addons = record {
    addons_spec = record { core_dns = none; others = tt };
    core_dns = some (record { addon_spec = none; dns_service_ips = "10.96.0.11" ∷ [] });
  };
  admission_controllers = tt;
  container_registry = "";
  controller_manager = component;
  api_server = component;
  scheduler = component;
  kine = record { extra_args = []; resources = tt };
  kubelet = tt;
  network = network;
  deployment = deployment;
}

abbrev pub status : KamajiControlPlaneStatus
status = record {
  initialization = none;
  ready = false;
  ready_replicas = none;
  replicas = none;
  selector = none;
  available_replicas = none;
  up_to_date_replicas = none;
  external_managed_control_plane = none;
  failure_reason = "";
  failure_message = "";
  version = "";
  conditions = [];
}

abbrev pub kcp : KamajiControlPlane trivial
kcp = record {
  meta = meta "ns" "demo";
  spec = record {
    fields = kcp_fields;
    control_plane_endpoint = record { host = ""; port = pos 0 };
    replicas = some (pos 2);
    version = "1.30.0";
  };
  status = status;
}

abbrev pub tenant_spec : TenantSpec trivial
tenant_spec = record {
  network_profile = record {
    port = pos 6443;
    service_cidrs = [];
    pod_cidrs = [];
    cluster_domain = "";
    dns_service_ips = [];
    address = "";
    advertise_address = "";
    cert_sans = [];
    load_balancer_class = none;
    load_balancer_source_ranges = none;
  };
  deployment = record {
    replicas = none;
    registry_settings = record {
      registry = "";
      controller_manager_image = "";
      scheduler_image = "";
      api_server_image = "";
    };
    additional_volume_mounts = none;
    extra_args = none;
    resources = none;
    node_selector = none;
    runtime_class_name = "";
    service_account_name = "";
    additional_metadata = no_metadata;
    pod_additional_metadata = no_metadata;
    strategy = tt;
    affinity = none;
    tolerations = [];
    topology_spread_constraints = [];
    additional_init_containers = [];
    additional_containers = [];
    additional_volumes = [];
    probes = none;
  };
  service = record { service_type = ""; additional_metadata = no_metadata; additional_ports = [] };
  gateway = none;
  ingress = none;
  kubernetes = record { version = ""; admission_controllers = tt; kubelet = tt };
  addons = record { core_dns = none; others = tt };
  data_store = "";
  data_store_schema = "";
  data_store_username = "";
  data_store_overrides = [];
  others = tt;
}

abbrev pub tenant_status : TenantStatus
tenant_status = record {
  control_plane_endpoint = "10.0.0.1:6443";
  version_status = some version_ready;
  version = "v1.30.0";
  ready_replicas = pos 2;
  replicas = pos 2;
  selector = "";
  available_replicas = pos 2;
  updated_replicas = pos 2;
  admin_secret_name = "admin";
  ca_secret_name = "ca";
}

abbrev pub tenant : TenantControlPlane trivial
tenant = record { meta = meta "tenants" "kcp-u1"; spec = tenant_spec; status = tenant_status }

abbrev pub cluster : Cluster
cluster = record {
  meta = meta "ns" "demo";
  cluster_network = record {
    api_server_port = pos 6443;
    services_cidr_blocks = "10.96.0.0/12" ∷ [];
    pods_cidr_blocks = [];
    service_domain = "cluster.local";
  };
  infrastructure_ref = record { api_group = "infra"; kind = "ProxmoxCluster"; name = "demo" };
  control_plane_endpoint = record { host = "cp.example.com"; port = pos 443 };
  infrastructure_provisioned = some true;
}

abbrev pub secret : Secret
secret = record {
  meta = meta "ns" "kc";
  contents = some (("conf", some "kubeconfig") ∷ []);
  kind = "Opaque";
}
