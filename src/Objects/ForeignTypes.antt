-- ===== src/Objects/ForeignTypes.antt =====
-- The types of k8s.io/api and of Kamaji whose values the program only copies.
pub record Foreign : Type 1 where
  pub VolumeMount : Type 0
  pub ResourceRequirements : Type 0
  pub Probe : Type 0
  pub AdditionalPort : Type 0
  pub AddonSpec : Type 0
  -- `&kamajiv1alpha1.AddonSpec{}`
  pub empty_addon : AddonSpec
  -- the addons other than CoreDNS
  pub OtherAddons : Type 0
  pub DataStoreOverride : Type 0
  pub AdmissionControllers : Type 0
  pub KubeletSpec : Type 0
  pub DeploymentStrategy : Type 0
  pub Affinity : Type 0
  pub Toleration : Type 0
  pub TopologySpreadConstraint : Type 0
  pub Container : Type 0
  pub Volume : Type 0
  -- the fields of a TenantControlPlane's specification that the program never names
  pub OtherTenantSpec : Type 0
