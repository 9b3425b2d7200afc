-- ===== src/Copies/Spec.antt =====
-- Copies of the specification.
use cluster_api_control_plan.Base.{ℕ, String, Option, List, ◌++◌}
use cluster_api_control_plan.Base.Int.{ℤ}
use cluster_api_control_plan.Objects.{ApiEndpoint}
use cluster_api_control_plan.Copies.Memory.{
  Ref, Copyable, plain, pointer, slice, copy_pointer, IsDeep, plain-IsDeep, pointer-IsDeep,
  slice-IsDeep, ◌&◌, after,
}
use cluster_api_control_plan.Copies.Foreign.{Kinds, Types, memory, bare, flat, AreDeep, flat-IsDeep}
use cluster_api_control_plan.Copies.Network.{
  StoredNetworkComponent, of_network_component, copy_network_component-IsDeep,
}
use cluster_api_control_plan.Copies.Deployment.{
  StoredDeploymentComponent, of_deployment_component, copy_deployment_component-IsDeep,
}
use cluster_api_control_plan.Copies.Components.{
  StoredKineComponent, of_kine_component, copy_kine_component-IsDeep, StoredControlPlaneComponent,
  of_control_plane_component, copy_control_plane_component-IsDeep,
}
use cluster_api_control_plan.Copies.Addons.{
  StoredAddonsSpec, of_addons_spec, copy_addons_spec-IsDeep,
}

module _ (S : Kinds) where
  pub record StoredKamajiControlPlaneFields : Type 0 where
    pub data_store_name : String
    pub data_store_schema : String
    pub data_store_username : String
    pub data_store_overrides : Option (S.Ref (List S.DataStoreOverride))
    pub addons : StoredAddonsSpec S
    pub admission_controllers : Option (S.Ref (List S.AdmissionController))
    pub container_registry : String
    pub controller_manager : StoredControlPlaneComponent S
    pub api_server : StoredControlPlaneComponent S
    pub scheduler : StoredControlPlaneComponent S
    pub kine : StoredKineComponent S
    pub kubelet : S.KubeletSpec
    pub network : StoredNetworkComponent S
    pub deployment : StoredDeploymentComponent S

  pub record StoredKamajiControlPlaneSpec : Type 0 where
    pub fields : StoredKamajiControlPlaneFields
    pub control_plane_endpoint : ApiEndpoint
    pub replicas : Option (S.Ref ℤ)
    pub version : String

module _ (T : Types) where
  unfoldable pub contents_fields :
      StoredKamajiControlPlaneFields (memory T) → StoredKamajiControlPlaneFields (bare T)
  contents_fields x = record {
    data_store_name = x.data_store_name;
    data_store_schema = x.data_store_schema;
    data_store_username = x.data_store_username;
    data_store_overrides = (slice (flat T.data_store_override)).contents x.data_store_overrides;
    addons = (of_addons_spec T).contents x.addons;
    admission_controllers = (slice (flat T.admission_controller)).contents x.admission_controllers;
    container_registry = x.container_registry;
    controller_manager = (of_control_plane_component T).contents x.controller_manager;
    api_server = (of_control_plane_component T).contents x.api_server;
    scheduler = (of_control_plane_component T).contents x.scheduler;
    kine = (of_kine_component T).contents x.kine;
    kubelet = T.kubelet_spec.contents x.kubelet;
    network = (of_network_component T).contents x.network;
    deployment = (of_deployment_component T).contents x.deployment;
  }

  unfoldable pub addresses_fields : StoredKamajiControlPlaneFields (memory T) → List ℕ
  addresses_fields x =
      (slice (flat T.data_store_override)).addresses x.data_store_overrides
      ++ (of_addons_spec T).addresses x.addons
      ++ (slice (flat T.admission_controller)).addresses x.admission_controllers
      ++ (of_control_plane_component T).addresses x.controller_manager
      ++ (of_control_plane_component T).addresses x.api_server
      ++ (of_control_plane_component T).addresses x.scheduler
      ++ (of_kine_component T).addresses x.kine
      ++ T.kubelet_spec.addresses x.kubelet
      ++ (of_network_component T).addresses x.network
      ++ (of_deployment_component T).addresses x.deployment

  unfoldable pub copy_fields :
      StoredKamajiControlPlaneFields (memory T) → ℕ → StoredKamajiControlPlaneFields (memory T) × ℕ
  copy_fields x n =
      let (data_store_overrides, n1) =
        (slice (flat T.data_store_override)).copy_into x.data_store_overrides n in
      let (addons, n2) = (of_addons_spec T).copy_into x.addons n1 in
      let (admission_controllers, n3) =
        (slice (flat T.admission_controller)).copy_into x.admission_controllers n2 in
      let (controller_manager, n4) =
        (of_control_plane_component T).copy_into x.controller_manager n3 in
      let (api_server, n5) = (of_control_plane_component T).copy_into x.api_server n4 in
      let (scheduler, n6) = (of_control_plane_component T).copy_into x.scheduler n5 in
      let (kine, n7) = (of_kine_component T).copy_into x.kine n6 in
      let (kubelet, n8) = T.kubelet_spec.copy_into x.kubelet n7 in
      let (network, n9) = (of_network_component T).copy_into x.network n8 in
      let (deployment, n10) = (of_deployment_component T).copy_into x.deployment n9 in
      (
        record x {
          data_store_overrides = data_store_overrides;
          addons = addons;
          admission_controllers = admission_controllers;
          controller_manager = controller_manager;
          api_server = api_server;
          scheduler = scheduler;
          kine = kine;
          kubelet = kubelet;
          network = network;
          deployment = deployment;
        },
        n10,
      )

  abbrev pub of_fields : Copyable
  of_fields = record {
    Carrier = StoredKamajiControlPlaneFields (memory T);
    Contents = StoredKamajiControlPlaneFields (bare T);
    contents = contents_fields;
    addresses = addresses_fields;
    copy_into = copy_fields;
  }

  abbrev pub deep_copy_fields :
      Option (Ref (StoredKamajiControlPlaneFields (memory T)))
      → ℕ
      → Option (Ref (StoredKamajiControlPlaneFields (memory T))) × ℕ
  deep_copy_fields = copy_pointer of_fields

  pub copy_fields-IsDeep : AreDeep T → IsDeep of_fields
  unfolding contents_fields addresses_fields copy_fields
  copy_fields-IsDeep L = record {
    is_copy = λ x n.
        let i1 =
          (slice-IsDeep (flat-IsDeep T.data_store_override L.data_store_override)).is_copy
            x.data_store_overrides n in
        let i2 = (copy_addons_spec-IsDeep T L).is_copy x.addons (after i1) in
        let i3 =
          (slice-IsDeep (flat-IsDeep T.admission_controller L.admission_controller)).is_copy
            x.admission_controllers (after i2) in
        let i4 =
          (copy_control_plane_component-IsDeep T L).is_copy x.controller_manager (after i3) in
        let i5 = (copy_control_plane_component-IsDeep T L).is_copy x.api_server (after i4) in
        let i6 = (copy_control_plane_component-IsDeep T L).is_copy x.scheduler (after i5) in
        let i7 = (copy_kine_component-IsDeep T L).is_copy x.kine (after i6) in
        let i8 = L.kubelet_spec.is_copy x.kubelet (after i7) in
        let i9 = (copy_network_component-IsDeep T L).is_copy x.network (after i8) in
        let i10 = (copy_deployment_component-IsDeep T L).is_copy x.deployment (after i9) in
        record {
          same = λ j. record (contents_fields x) {
            data_store_overrides = i1.same j;
            addons = i2.same j;
            admission_controllers = i3.same j;
            controller_manager = i4.same j;
            api_server = i5.same j;
            scheduler = i6.same j;
            kine = i7.same j;
            kubelet = i8.same j;
            network = i9.same j;
            deployment = i10.same j;
          };
          addresses =
              i1.addresses & i2.addresses & i3.addresses & i4.addresses & i5.addresses
              & i6.addresses & i7.addresses & i8.addresses & i9.addresses & i10.addresses;
        };
  }

  unfoldable pub contents_spec :
      StoredKamajiControlPlaneSpec (memory T) → StoredKamajiControlPlaneSpec (bare T)
  contents_spec x = record {
    fields = of_fields.contents x.fields;
    control_plane_endpoint = x.control_plane_endpoint;
    replicas = (pointer (plain ℤ)).contents x.replicas;
    version = x.version;
  }

  unfoldable pub addresses_spec : StoredKamajiControlPlaneSpec (memory T) → List ℕ
  addresses_spec x = of_fields.addresses x.fields ++ (pointer (plain ℤ)).addresses x.replicas

  unfoldable pub copy_spec :
      StoredKamajiControlPlaneSpec (memory T) → ℕ → StoredKamajiControlPlaneSpec (memory T) × ℕ
  copy_spec x n =
      let (fields, n1) = of_fields.copy_into x.fields n in
      let (replicas, n2) = (pointer (plain ℤ)).copy_into x.replicas n1 in
      (record x { fields = fields; replicas = replicas }, n2)

  abbrev pub of_spec : Copyable
  of_spec = record {
    Carrier = StoredKamajiControlPlaneSpec (memory T);
    Contents = StoredKamajiControlPlaneSpec (bare T);
    contents = contents_spec;
    addresses = addresses_spec;
    copy_into = copy_spec;
  }

  abbrev pub deep_copy_spec :
      Option (Ref (StoredKamajiControlPlaneSpec (memory T)))
      → ℕ
      → Option (Ref (StoredKamajiControlPlaneSpec (memory T))) × ℕ
  deep_copy_spec = copy_pointer of_spec

  pub copy_spec-IsDeep : AreDeep T → IsDeep of_spec
  unfolding contents_spec addresses_spec copy_spec
  copy_spec-IsDeep L = record {
    is_copy = λ x n.
        let i1 = (copy_fields-IsDeep L).is_copy x.fields n in
        let i2 = (pointer-IsDeep (plain-IsDeep ℤ)).is_copy x.replicas (after i1) in
        record {
          same = λ j. record (contents_spec x) { fields = i1.same j; replicas = i2.same j };
          addresses = i1.addresses & i2.addresses;
        };
  }
