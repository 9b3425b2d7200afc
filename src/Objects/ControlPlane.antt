-- ===== src/Objects/ControlPlane.antt =====
-- The types of api/v1alpha2/kamajicontrolplane_types.go. A pointer is an `Option`; a slice is a
-- list, nil being the empty one, but where the program tells the two apart.
use cluster_api_control_plan.Base.{String, Bool, Option, List, GoMap}
use cluster_api_control_plan.Base.Int.{ℤ}
use cluster_api_control_plan.Objects.ForeignTypes.{Foreign}
use cluster_api_control_plan.Objects.Meta.{ObjectMeta, Condition, ApiEndpoint}

-- kamajiv1alpha1.ProbeSet
pub record ProbeSet (F : Foreign) : Type 0 where
  pub liveness : Option F.Probe
  pub readiness : Option F.Probe
  pub startup : Option F.Probe

-- kamajiv1alpha1.AdditionalMetadata
pub record AdditionalMetadata : Type 0 where
  pub labels : GoMap String
  pub annotations : GoMap String

pub record ControlPlaneComponent (F : Foreign) : Type 0 where
  pub extra_volume_mounts : List F.VolumeMount
  pub extra_args : List String
  pub resources : F.ResourceRequirements
  pub container_image_name : String
  pub probes : Option (ProbeSet F)

pub record KineComponent (F : Foreign) : Type 0 where
  pub extra_args : List String
  pub resources : F.ResourceRequirements

pub record GatewayComponent : Type 0 where
  pub name : String
  pub namespace : String
  pub hostname : String
  pub section_name : String
  pub port : Option ℤ
  pub extra_labels : GoMap String
  pub extra_annotations : GoMap String

pub record IngressComponent : Type 0 where
  pub class_name : String
  pub hostname : String
  pub extra_labels : GoMap String
  pub extra_annotations : GoMap String

-- The program tests the source ranges for nil.
pub record LoadBalancerConfig : Type 0 where
  pub source_ranges : Option (List String)
  pub class : Option String

pub record NetworkComponent (F : Foreign) : Type 0 where
  pub load_balancer_config : Option LoadBalancerConfig
  pub gateway : Option GatewayComponent
  pub ingress : Option IngressComponent
  pub service_type : String
  pub service_address : String
  pub advertise_address : String
  pub service_labels : GoMap String
  pub service_annotations : GoMap String
  pub additional_service_ports : List F.AdditionalPort
  pub cert_sans : List String
  pub dns_service_ips : List String

pub record CoreDnsAddonSpec (F : Foreign) : Type 0 where
  pub addon_spec : Option F.AddonSpec
  pub dns_service_ips : List String

-- kamajiv1alpha1.AddonsSpec
pub record TenantAddons (F : Foreign) : Type 0 where
  pub core_dns : Option F.AddonSpec
  pub others : F.OtherAddons

pub record AddonsSpec (F : Foreign) : Type 0 where
  pub addons_spec : TenantAddons F
  pub core_dns : Option (CoreDnsAddonSpec F)

pub record ExternalClusterReference : Type 0 where
  pub kubeconfig_secret_name : String
  pub kubeconfig_secret_key : String
  pub kubeconfig_secret_namespace : String
  pub deployment_namespace : String

pub record DeploymentComponent (F : Foreign) : Type 0 where
  pub node_selector : GoMap String
  pub runtime_class_name : String
  pub additional_metadata : AdditionalMetadata
  pub pod_additional_metadata : AdditionalMetadata
  pub service_account_name : String
  pub strategy : F.DeploymentStrategy
  pub affinity : Option F.Affinity
  pub tolerations : List F.Toleration
  pub topology_spread_constraints : List F.TopologySpreadConstraint
  pub extra_init_containers : List F.Container
  pub extra_containers : List F.Container
  pub extra_volumes : List F.Volume
  pub external_cluster_reference : Option ExternalClusterReference
  pub probes : Option (ProbeSet F)

pub record KamajiControlPlaneFields (F : Foreign) : Type 0 where
  pub data_store_name : String
  pub data_store_schema : String
  pub data_store_username : String
  pub data_store_overrides : List F.DataStoreOverride
  pub addons : AddonsSpec F
  pub admission_controllers : F.AdmissionControllers
  pub container_registry : String
  pub controller_manager : ControlPlaneComponent F
  pub api_server : ControlPlaneComponent F
  pub scheduler : ControlPlaneComponent F
  pub kine : KineComponent F
  pub kubelet : F.KubeletSpec
  pub network : NetworkComponent F
  pub deployment : DeploymentComponent F

pub record KamajiControlPlaneSpec (F : Foreign) : Type 0 where
  pub fields : KamajiControlPlaneFields F
  pub open fields use *
  pub control_plane_endpoint : ApiEndpoint
  pub replicas : Option ℤ
  pub version : String

pub record KamajiControlPlaneInitializationStatus : Type 0 where
  pub control_plane_initialized : Option Bool

pub record KamajiControlPlaneStatus : Type 0 where
  pub initialization : Option KamajiControlPlaneInitializationStatus
  pub ready : Bool
  pub ready_replicas : Option ℤ
  pub replicas : Option ℤ
  pub selector : Option String
  pub available_replicas : Option ℤ
  pub up_to_date_replicas : Option ℤ
  pub external_managed_control_plane : Option Bool
  pub failure_reason : String
  pub failure_message : String
  pub version : String
  pub conditions : List Condition

pub record KamajiControlPlane (F : Foreign) : Type 0 where
  pub meta : ObjectMeta
  pub spec : KamajiControlPlaneSpec F
  pub status : KamajiControlPlaneStatus
