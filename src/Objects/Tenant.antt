-- ===== src/Objects/Tenant.antt =====
-- `kamajiv1alpha1.TenantControlPlane`, as far as the program names its fields.
use cluster_api_control_plan.Base.{String, Option, List, GoMap}
use cluster_api_control_plan.Base.Int.{ℤ}
use cluster_api_control_plan.Objects.ForeignTypes.{Foreign}
use cluster_api_control_plan.Objects.Meta.{ObjectMeta}
use cluster_api_control_plan.Objects.ControlPlane.{AdditionalMetadata, ProbeSet, TenantAddons}

pub record NetworkProfile : Type 0 where
  pub port : ℤ
  pub service_cidrs : List String
  pub pod_cidrs : List String
  pub cluster_domain : String
  pub dns_service_ips : List String
  pub address : String
  pub advertise_address : String
  pub cert_sans : List String
  pub load_balancer_class : Option String
  pub load_balancer_source_ranges : Option (List String)

pub record TenantKubernetes (F : Foreign) : Type 0 where
  pub version : String
  pub admission_controllers : F.AdmissionControllers
  pub kubelet : F.KubeletSpec

pub record RegistrySettings : Type 0 where
  pub registry : String
  pub controller_manager_image : String
  pub scheduler_image : String
  pub api_server_image : String

pub record AdditionalVolumeMounts (F : Foreign) : Type 0 where
  pub controller_manager : List F.VolumeMount
  pub scheduler : List F.VolumeMount
  pub api_server : List F.VolumeMount

pub record ExtraArgs : Type 0 where
  pub controller_manager : List String
  pub scheduler : List String
  pub api_server : List String
  pub kine : List String

pub record ComponentsResources (F : Foreign) : Type 0 where
  pub controller_manager : Option F.ResourceRequirements
  pub scheduler : Option F.ResourceRequirements
  pub api_server : Option F.ResourceRequirements
  pub kine : Option F.ResourceRequirements

pub record ControlPlaneProbes (F : Foreign) : Type 0 where
  pub api_server : Option (ProbeSet F)
  pub controller_manager : Option (ProbeSet F)
  pub scheduler : Option (ProbeSet F)
  pub liveness : Option F.Probe
  pub readiness : Option F.Probe
  pub startup : Option F.Probe

pub record TenantDeployment (F : Foreign) : Type 0 where
  pub replicas : Option ℤ
  pub registry_settings : RegistrySettings
  pub additional_volume_mounts : Option (AdditionalVolumeMounts F)
  pub extra_args : Option ExtraArgs
  pub resources : Option (ComponentsResources F)
  pub node_selector : GoMap String
  pub runtime_class_name : String
  pub service_account_name : String
  pub additional_metadata : AdditionalMetadata
  pub pod_additional_metadata : AdditionalMetadata
  pub strategy : F.DeploymentStrategy
  pub affinity : Option F.Affinity
  pub tolerations : List F.Toleration
  pub topology_spread_constraints : List F.TopologySpreadConstraint
  pub additional_init_containers : List F.Container
  pub additional_containers : List F.Container
  pub additional_volumes : List F.Volume
  pub probes : Option (ControlPlaneProbes F)

-- gatewayv1.ParentReference
pub record ParentReference : Type 0 where
  pub name : String
  pub namespace : Option String
  pub section_name : Option String
  pub port : Option ℤ

pub record GatewaySpec : Type 0 where
  pub hostname : String
  pub gateway_parent_refs : List ParentReference
  pub additional_metadata : AdditionalMetadata

pub record IngressSpec : Type 0 where
  pub additional_metadata : AdditionalMetadata
  pub ingress_class_name : String
  pub hostname : String

pub record TenantService (F : Foreign) : Type 0 where
  pub service_type : String
  pub additional_metadata : AdditionalMetadata
  pub additional_ports : List F.AdditionalPort

pub record TenantSpec (F : Foreign) : Type 0 where
  pub network_profile : NetworkProfile
  pub deployment : TenantDeployment F
  pub service : TenantService F
  pub gateway : Option GatewaySpec
  pub ingress : Option IngressSpec
  pub kubernetes : TenantKubernetes F
  pub addons : TenantAddons F
  pub data_store : String
  pub data_store_schema : String
  pub data_store_username : String
  pub data_store_overrides : List F.DataStoreOverride
  pub others : F.OtherTenantSpec

-- kamajiv1alpha1.KubernetesVersionStatus
pub data VersionStatus : Type 0 where
  version_ready version_upgrading : VersionStatus
  version_other : String → VersionStatus

pub record TenantStatus : Type 0 where
  pub control_plane_endpoint : String
  pub version_status : Option VersionStatus
  pub version : String
  pub ready_replicas : ℤ
  pub replicas : ℤ
  pub selector : String
  pub available_replicas : ℤ
  pub updated_replicas : ℤ
  pub admin_secret_name : String
  pub ca_secret_name : String

pub record TenantControlPlane (F : Foreign) : Type 0 where
  pub meta : ObjectMeta
  pub spec : TenantSpec F
  pub status : TenantStatus
