-- ===== src/Copies/Foreign.antt =====
-- The types of other projects, each with its own way to be copied, and the API types that are built
-- of them: stored, where a reference has an address, and bare, where it is what it refers to.
use cluster_api_control_plan.Base.{ℕ, List, [], ◌≡◌}
use cluster_api_control_plan.Copies.Memory.{Ref, Copyable, assigned, IsDeep, assigned-IsDeep}

-- A type that is assigned and not copied, with the references in a value.
pub record Flat : Type 1 where
  pub Carrier : Type 0
  pub references : Carrier → List ℕ

pub record Types : Type 1 where
  pub volume_mount : Copyable
  pub resource_requirements : Copyable
  pub probe_set : Copyable
  pub addons_spec : Copyable
  pub additional_metadata : Copyable
  pub deployment_strategy : Copyable
  pub affinity : Copyable
  pub toleration : Copyable
  pub topology_spread_constraint : Copyable
  pub container : Copyable
  pub volume : Copyable
  pub additional_port : Copyable
  pub kubelet_spec : Copyable
  pub object_meta : Copyable
  pub cluster_object_meta : Copyable
  pub list_meta : Copyable
  pub condition : Copyable
  pub addon_spec : Flat
  pub data_store_override : Flat
  pub admission_controller : Flat
  pub type_meta : Flat

-- How references are written, and the types.
pub record Kinds : Type 1 where
  pub Ref : Type 0 → Type 0
  pub VolumeMount : Type 0
  pub ResourceRequirements : Type 0
  pub ProbeSet : Type 0
  pub AddonsSpec : Type 0
  pub AdditionalMetadata : Type 0
  pub DeploymentStrategy : Type 0
  pub Affinity : Type 0
  pub Toleration : Type 0
  pub TopologySpreadConstraint : Type 0
  pub Container : Type 0
  pub Volume : Type 0
  pub AdditionalPort : Type 0
  pub KubeletSpec : Type 0
  pub ObjectMeta : Type 0
  pub ClusterObjectMeta : Type 0
  pub ListMeta : Type 0
  pub Condition : Type 0
  pub AddonSpec : Type 0
  pub DataStoreOverride : Type 0
  pub AdmissionController : Type 0
  pub TypeMeta : Type 0

abbrev pub memory : Types → Kinds
memory T = record {
  Ref = λ A. Ref A;
  VolumeMount = T.volume_mount.Carrier;
  ResourceRequirements = T.resource_requirements.Carrier;
  ProbeSet = T.probe_set.Carrier;
  AddonsSpec = T.addons_spec.Carrier;
  AdditionalMetadata = T.additional_metadata.Carrier;
  DeploymentStrategy = T.deployment_strategy.Carrier;
  Affinity = T.affinity.Carrier;
  Toleration = T.toleration.Carrier;
  TopologySpreadConstraint = T.topology_spread_constraint.Carrier;
  Container = T.container.Carrier;
  Volume = T.volume.Carrier;
  AdditionalPort = T.additional_port.Carrier;
  KubeletSpec = T.kubelet_spec.Carrier;
  ObjectMeta = T.object_meta.Carrier;
  ClusterObjectMeta = T.cluster_object_meta.Carrier;
  ListMeta = T.list_meta.Carrier;
  Condition = T.condition.Carrier;
  AddonSpec = T.addon_spec.Carrier;
  DataStoreOverride = T.data_store_override.Carrier;
  AdmissionController = T.admission_controller.Carrier;
  TypeMeta = T.type_meta.Carrier;
}

abbrev pub bare : Types → Kinds
bare T = record {
  Ref = λ A. A;
  VolumeMount = T.volume_mount.Contents;
  ResourceRequirements = T.resource_requirements.Contents;
  ProbeSet = T.probe_set.Contents;
  AddonsSpec = T.addons_spec.Contents;
  AdditionalMetadata = T.additional_metadata.Contents;
  DeploymentStrategy = T.deployment_strategy.Contents;
  Affinity = T.affinity.Contents;
  Toleration = T.toleration.Contents;
  TopologySpreadConstraint = T.topology_spread_constraint.Contents;
  Container = T.container.Contents;
  Volume = T.volume.Contents;
  AdditionalPort = T.additional_port.Contents;
  KubeletSpec = T.kubelet_spec.Contents;
  ObjectMeta = T.object_meta.Contents;
  ClusterObjectMeta = T.cluster_object_meta.Contents;
  ListMeta = T.list_meta.Contents;
  Condition = T.condition.Contents;
  AddonSpec = T.addon_spec.Carrier;
  DataStoreOverride = T.data_store_override.Carrier;
  AdmissionController = T.admission_controller.Carrier;
  TypeMeta = T.type_meta.Carrier;
}

abbrev pub flat : Flat → Copyable
flat A = assigned A.Carrier A.references

-- The copies of the other projects are deep, and what is assigned holds no reference.
pub record AreDeep (T : Types) : Type 0 where
  pub volume_mount : IsDeep T.volume_mount
  pub resource_requirements : IsDeep T.resource_requirements
  pub probe_set : IsDeep T.probe_set
  pub addons_spec : IsDeep T.addons_spec
  pub additional_metadata : IsDeep T.additional_metadata
  pub deployment_strategy : IsDeep T.deployment_strategy
  pub affinity : IsDeep T.affinity
  pub toleration : IsDeep T.toleration
  pub topology_spread_constraint : IsDeep T.topology_spread_constraint
  pub container : IsDeep T.container
  pub volume : IsDeep T.volume
  pub additional_port : IsDeep T.additional_port
  pub kubelet_spec : IsDeep T.kubelet_spec
  pub object_meta : IsDeep T.object_meta
  pub cluster_object_meta : IsDeep T.cluster_object_meta
  pub list_meta : IsDeep T.list_meta
  pub condition : IsDeep T.condition
  pub addon_spec : (x : T.addon_spec.Carrier) → T.addon_spec.references x ≡ []
  pub data_store_override :
      (x : T.data_store_override.Carrier) → T.data_store_override.references x ≡ []
  pub admission_controller :
      (x : T.admission_controller.Carrier) → T.admission_controller.references x ≡ []
  pub type_meta : (x : T.type_meta.Carrier) → T.type_meta.references x ≡ []

pub flat-IsDeep : (A : Flat) → ((x : A.Carrier) → A.references x ≡ []) → IsDeep (flat A)
flat-IsDeep A none = assigned-IsDeep A.Carrier A.references none
