-- ===== src/Copies/Deployment.antt =====
-- Copies of the deployment.
use cluster_api_control_plan.Base.{ℕ, String, Option, List, [], ◌++◌, Entries, refl}
use cluster_api_control_plan.Copies.Memory.{
  Ref, Copyable, pointer, slice, string_map, copy_pointer, IsDeep, pointer-IsDeep, slice-IsDeep,
  string_map-IsDeep, ◌&◌, after, nothing-IsNew,
}
use cluster_api_control_plan.Copies.Foreign.{Kinds, Types, memory, bare, AreDeep}

module _ (S : Kinds) where
  pub record StoredExternalClusterReference : Type 0 where
    pub kubeconfig_secret_name : String
    pub kubeconfig_secret_key : String
    pub kubeconfig_secret_namespace : String
    pub deployment_namespace : String

  pub record StoredDeploymentComponent : Type 0 where
    pub node_selector : Option (S.Ref (Entries String))
    pub runtime_class_name : String
    pub additional_metadata : S.AdditionalMetadata
    pub pod_additional_metadata : S.AdditionalMetadata
    pub service_account_name : String
    pub strategy : S.DeploymentStrategy
    pub affinity : Option (S.Ref S.Affinity)
    pub tolerations : Option (S.Ref (List S.Toleration))
    pub topology_spread_constraints : Option (S.Ref (List S.TopologySpreadConstraint))
    pub extra_init_containers : Option (S.Ref (List S.Container))
    pub extra_containers : Option (S.Ref (List S.Container))
    pub extra_volumes : Option (S.Ref (List S.Volume))
    pub external_cluster_reference : Option (S.Ref (StoredExternalClusterReference))
    pub probes : Option (S.Ref S.ProbeSet)

module _ (T : Types) where
  unfoldable pub contents_external_cluster_reference :
      StoredExternalClusterReference (memory T) → StoredExternalClusterReference (bare T)
  contents_external_cluster_reference x = record {
    kubeconfig_secret_name = x.kubeconfig_secret_name;
    kubeconfig_secret_key = x.kubeconfig_secret_key;
    kubeconfig_secret_namespace = x.kubeconfig_secret_namespace;
    deployment_namespace = x.deployment_namespace;
  }

  unfoldable pub addresses_external_cluster_reference :
      StoredExternalClusterReference (memory T) → List ℕ
  addresses_external_cluster_reference x = []

  unfoldable pub copy_external_cluster_reference :
      StoredExternalClusterReference (memory T) → ℕ → StoredExternalClusterReference (memory T) × ℕ
  copy_external_cluster_reference x n = (x, n)

  abbrev pub of_external_cluster_reference : Copyable
  of_external_cluster_reference = record {
    Carrier = StoredExternalClusterReference (memory T);
    Contents = StoredExternalClusterReference (bare T);
    contents = contents_external_cluster_reference;
    addresses = addresses_external_cluster_reference;
    copy_into = copy_external_cluster_reference;
  }

  abbrev pub deep_copy_external_cluster_reference :
      Option (Ref (StoredExternalClusterReference (memory T)))
      → ℕ
      → Option (Ref (StoredExternalClusterReference (memory T))) × ℕ
  deep_copy_external_cluster_reference = copy_pointer of_external_cluster_reference

  pub copy_external_cluster_reference-IsDeep : AreDeep T → IsDeep of_external_cluster_reference
  unfolding contents_external_cluster_reference addresses_external_cluster_reference
      copy_external_cluster_reference
  copy_external_cluster_reference-IsDeep L = record {
    is_copy = λ x n. record { same = refl; addresses = nothing-IsNew n };
  }

  unfoldable pub contents_deployment_component :
      StoredDeploymentComponent (memory T) → StoredDeploymentComponent (bare T)
  contents_deployment_component x = record {
    node_selector = string_map.contents x.node_selector;
    runtime_class_name = x.runtime_class_name;
    additional_metadata = T.additional_metadata.contents x.additional_metadata;
    pod_additional_metadata = T.additional_metadata.contents x.pod_additional_metadata;
    service_account_name = x.service_account_name;
    strategy = T.deployment_strategy.contents x.strategy;
    affinity = (pointer T.affinity).contents x.affinity;
    tolerations = (slice T.toleration).contents x.tolerations;
    topology_spread_constraints =
        (slice T.topology_spread_constraint).contents x.topology_spread_constraints;
    extra_init_containers = (slice T.container).contents x.extra_init_containers;
    extra_containers = (slice T.container).contents x.extra_containers;
    extra_volumes = (slice T.volume).contents x.extra_volumes;
    external_cluster_reference =
        (pointer of_external_cluster_reference).contents x.external_cluster_reference;
    probes = (pointer T.probe_set).contents x.probes;
  }

  unfoldable pub addresses_deployment_component : StoredDeploymentComponent (memory T) → List ℕ
  addresses_deployment_component x =
      string_map.addresses x.node_selector
      ++ T.additional_metadata.addresses x.additional_metadata
      ++ T.additional_metadata.addresses x.pod_additional_metadata
      ++ T.deployment_strategy.addresses x.strategy
      ++ (pointer T.affinity).addresses x.affinity
      ++ (slice T.toleration).addresses x.tolerations
      ++ (slice T.topology_spread_constraint).addresses x.topology_spread_constraints
      ++ (slice T.container).addresses x.extra_init_containers
      ++ (slice T.container).addresses x.extra_containers
      ++ (slice T.volume).addresses x.extra_volumes
      ++ (pointer of_external_cluster_reference).addresses x.external_cluster_reference
      ++ (pointer T.probe_set).addresses x.probes

  unfoldable pub copy_deployment_component :
      StoredDeploymentComponent (memory T) → ℕ → StoredDeploymentComponent (memory T) × ℕ
  copy_deployment_component x n =
      let (node_selector, n1) = string_map.copy_into x.node_selector n in
      let (additional_metadata, n2) = T.additional_metadata.copy_into x.additional_metadata n1 in
      let (pod_additional_metadata, n3) =
        T.additional_metadata.copy_into x.pod_additional_metadata n2 in
      let (strategy, n4) = T.deployment_strategy.copy_into x.strategy n3 in
      let (affinity, n5) = (pointer T.affinity).copy_into x.affinity n4 in
      let (tolerations, n6) = (slice T.toleration).copy_into x.tolerations n5 in
      let (topology_spread_constraints, n7) =
        (slice T.topology_spread_constraint).copy_into x.topology_spread_constraints n6 in
      let (extra_init_containers, n8) = (slice T.container).copy_into x.extra_init_containers n7 in
      let (extra_containers, n9) = (slice T.container).copy_into x.extra_containers n8 in
      let (extra_volumes, n10) = (slice T.volume).copy_into x.extra_volumes n9 in
      let (external_cluster_reference, n11) =
        (pointer of_external_cluster_reference).copy_into x.external_cluster_reference n10 in
      let (probes, n12) = (pointer T.probe_set).copy_into x.probes n11 in
      (
        record x {
          node_selector = node_selector;
          additional_metadata = additional_metadata;
          pod_additional_metadata = pod_additional_metadata;
          strategy = strategy;
          affinity = affinity;
          tolerations = tolerations;
          topology_spread_constraints = topology_spread_constraints;
          extra_init_containers = extra_init_containers;
          extra_containers = extra_containers;
          extra_volumes = extra_volumes;
          external_cluster_reference = external_cluster_reference;
          probes = probes;
        },
        n12,
      )

  abbrev pub of_deployment_component : Copyable
  of_deployment_component = record {
    Carrier = StoredDeploymentComponent (memory T);
    Contents = StoredDeploymentComponent (bare T);
    contents = contents_deployment_component;
    addresses = addresses_deployment_component;
    copy_into = copy_deployment_component;
  }

  abbrev pub deep_copy_deployment_component :
      Option (Ref (StoredDeploymentComponent (memory T)))
      → ℕ
      → Option (Ref (StoredDeploymentComponent (memory T))) × ℕ
  deep_copy_deployment_component = copy_pointer of_deployment_component

  pub copy_deployment_component-IsDeep : AreDeep T → IsDeep of_deployment_component
  unfolding contents_deployment_component addresses_deployment_component copy_deployment_component
  copy_deployment_component-IsDeep L = record {
    is_copy = λ x n.
        let i1 = string_map-IsDeep.is_copy x.node_selector n in
        let i2 = L.additional_metadata.is_copy x.additional_metadata (after i1) in
        let i3 = L.additional_metadata.is_copy x.pod_additional_metadata (after i2) in
        let i4 = L.deployment_strategy.is_copy x.strategy (after i3) in
        let i5 = (pointer-IsDeep L.affinity).is_copy x.affinity (after i4) in
        let i6 = (slice-IsDeep L.toleration).is_copy x.tolerations (after i5) in
        let i7 =
          (slice-IsDeep L.topology_spread_constraint).is_copy x.topology_spread_constraints
            (after i6) in
        let i8 = (slice-IsDeep L.container).is_copy x.extra_init_containers (after i7) in
        let i9 = (slice-IsDeep L.container).is_copy x.extra_containers (after i8) in
        let i10 = (slice-IsDeep L.volume).is_copy x.extra_volumes (after i9) in
        let i11 =
          (pointer-IsDeep (copy_external_cluster_reference-IsDeep L)).is_copy
            x.external_cluster_reference (after i10) in
        let i12 = (pointer-IsDeep L.probe_set).is_copy x.probes (after i11) in
        record {
          same = λ j. record (contents_deployment_component x) {
            node_selector = i1.same j;
            additional_metadata = i2.same j;
            pod_additional_metadata = i3.same j;
            strategy = i4.same j;
            affinity = i5.same j;
            tolerations = i6.same j;
            topology_spread_constraints = i7.same j;
            extra_init_containers = i8.same j;
            extra_containers = i9.same j;
            extra_volumes = i10.same j;
            external_cluster_reference = i11.same j;
            probes = i12.same j;
          };
          addresses =
              i1.addresses & i2.addresses & i3.addresses & i4.addresses & i5.addresses
              & i6.addresses & i7.addresses & i8.addresses & i9.addresses & i10.addresses
              & i11.addresses & i12.addresses;
        };
  }
