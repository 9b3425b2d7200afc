-- ===== src/Controller/Tenant/Settings.antt =====
-- What is assigned before the certificate SANs are checked: network, addons, datastore, versions
-- and the options of the components.
use cluster_api_control_plan.Base.{
  String, ◌<>◌, ◌!=◌, not, Option, none, some, List, [], ◌∷◌, if◌then◌else◌,
}
use cluster_api_control_plan.Base.Int.{pos, eqb}
use cluster_api_control_plan.GoNet.{has_prefix}
use cluster_api_control_plan.Objects.{
  Foreign, KamajiControlPlane, KamajiControlPlaneSpec, AddonsSpec, TenantAddons, Cluster,
  ClusterNetwork, NetworkProfile, TenantDeployment, TenantSpec, AdditionalVolumeMounts, ExtraArgs,
  ComponentsResources,
}

-- A version string without the prefix "v" gets it.
unfoldable pub normalized_version : String → String
normalized_version version = if not (has_prefix version "v") then "v" <> version else version

abbrev pub nonempty_or {ℓ} : {A : Type ℓ} → List A → List A → List A
nonempty_or [] old = old
nonempty_or (x ∷ xs) old = x ∷ xs

abbrev pub text_or : String → String → String
text_or new old = if new != "" then new else old

-- `kcp.Spec.Addons.CoreDNS.AddonSpec`, nil being replaced by an empty one.
abbrev pub addon_or_empty : (F : Foreign) → Option F.AddonSpec → F.AddonSpec
addon_or_empty F none = F.empty_addon
addon_or_empty F (some a) = a

module _ {F : Foreign} where
  -- The write of that default into the KamajiControlPlane, whose CoreDNS the caller shares.
  unfoldable pub with_core_dns_default : KamajiControlPlane F → KamajiControlPlane F
  with_core_dns_default kcp = elim kcp.spec.addons.core_dns [
    | none ↦ kcp
    | some dns ↦ record kcp {
      spec = record kcp.spec {
        fields = record kcp.spec.fields {
          addons = record kcp.spec.addons {
            core_dns = some (record dns { addon_spec = some (addon_or_empty F dns.addon_spec) });
          };
        };
      };
    }
  ]

  unfoldable pub tenant_addons : AddonsSpec F → TenantAddons F
  tenant_addons addons = elim addons.core_dns [
    | none ↦ addons.addons_spec
    | some dns ↦ record addons.addons_spec { core_dns = some (addon_or_empty F dns.addon_spec) }
  ]

  unfoldable pub tenant_network :
      ClusterNetwork → KamajiControlPlaneSpec F → NetworkProfile → NetworkProfile
  tenant_network net spec np = record np {
    port = if not (eqb net.api_server_port (pos 0)) then net.api_server_port else np.port;
    service_cidrs = nonempty_or net.services_cidr_blocks np.service_cidrs;
    pod_cidrs = nonempty_or net.pods_cidr_blocks np.pod_cidrs;
    cluster_domain = net.service_domain;
    dns_service_ips = elim spec.addons.core_dns [
      | none ↦ spec.network.dns_service_ips
      | some dns ↦ dns.dns_service_ips
    ];
    address = spec.network.service_address;
    advertise_address = spec.network.advertise_address;
  }

  abbrev volume_mounts : KamajiControlPlaneSpec F → AdditionalVolumeMounts F
  volume_mounts spec = record {
    controller_manager = spec.controller_manager.extra_volume_mounts;
    scheduler = spec.scheduler.extra_volume_mounts;
    api_server = spec.api_server.extra_volume_mounts;
  }

  abbrev extra_args : KamajiControlPlaneSpec F → ExtraArgs
  extra_args spec = record {
    controller_manager = spec.controller_manager.extra_args;
    scheduler = spec.scheduler.extra_args;
    api_server = spec.api_server.extra_args;
    kine = spec.kine.extra_args;
  }

  abbrev resources : KamajiControlPlaneSpec F → ComponentsResources F
  resources spec = record {
    controller_manager = some spec.controller_manager.resources;
    scheduler = some spec.scheduler.resources;
    api_server = some spec.api_server.resources;
    kine = some spec.kine.resources;
  }

  -- All fields of the three optional structures are assigned, so it does not matter whether they
  -- are new.
  unfoldable pub tenant_components :
      KamajiControlPlaneSpec F → TenantDeployment F → TenantDeployment F
  tenant_components spec d = record d {
    replicas = spec.replicas;
    registry_settings = record {
      registry = spec.container_registry;
      controller_manager_image = spec.controller_manager.container_image_name;
      scheduler_image = spec.scheduler.container_image_name;
      api_server_image = spec.api_server.container_image_name;
    };
    additional_volume_mounts = some (volume_mounts spec);
    extra_args = some (extra_args spec);
    resources = some (resources spec);
  }

  unfoldable pub tenant_settings : Cluster → KamajiControlPlaneSpec F → TenantSpec F → TenantSpec F
  tenant_settings cluster spec t = record t {
    network_profile = tenant_network cluster.cluster_network spec t.network_profile;
    deployment = tenant_components spec t.deployment;
    kubernetes = record {
      version = normalized_version spec.version;
      admission_controllers = spec.admission_controllers;
      kubelet = spec.kubelet;
    };
    addons = tenant_addons spec.addons;
    data_store = text_or spec.data_store_name t.data_store;
    data_store_schema = text_or spec.data_store_schema t.data_store_schema;
    data_store_username = text_or spec.data_store_username t.data_store_username;
    data_store_overrides = spec.data_store_overrides;
    service = record {
      service_type = spec.network.service_type;
      additional_metadata = record {
        labels = spec.network.service_labels;
        annotations = spec.network.service_annotations;
      };
      additional_ports = spec.network.additional_service_ports;
    };
  }
