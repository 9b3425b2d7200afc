-- ===== src/Copies/Components.antt =====
-- Copies of the components of a control plane.
use cluster_api_control_plan.Base.{ℕ, String, Option, List, ◌++◌}
use cluster_api_control_plan.Copies.Memory.{
  Ref, Copyable, plain, pointer, slice, copy_pointer, IsDeep, plain-IsDeep, pointer-IsDeep,
  slice-IsDeep, ◌&◌, after,
}
use cluster_api_control_plan.Copies.Foreign.{Kinds, Types, memory, bare, AreDeep}

module _ (S : Kinds) where
  pub record StoredControlPlaneComponent : Type 0 where
    pub extra_volume_mounts : Option (S.Ref (List S.VolumeMount))
    pub extra_args : Option (S.Ref (List String))
    pub resources : S.ResourceRequirements
    pub container_image_name : String
    pub probes : Option (S.Ref S.ProbeSet)

  pub record StoredKineComponent : Type 0 where
    pub extra_args : Option (S.Ref (List String))
    pub resources : S.ResourceRequirements

module _ (T : Types) where
  unfoldable pub contents_control_plane_component :
      StoredControlPlaneComponent (memory T) → StoredControlPlaneComponent (bare T)
  contents_control_plane_component x = record {
    extra_volume_mounts = (slice T.volume_mount).contents x.extra_volume_mounts;
    extra_args = (slice (plain String)).contents x.extra_args;
    resources = T.resource_requirements.contents x.resources;
    container_image_name = x.container_image_name;
    probes = (pointer T.probe_set).contents x.probes;
  }

  unfoldable pub addresses_control_plane_component : StoredControlPlaneComponent (memory T) → List ℕ
  addresses_control_plane_component x =
      (slice T.volume_mount).addresses x.extra_volume_mounts
      ++ (slice (plain String)).addresses x.extra_args
      ++ T.resource_requirements.addresses x.resources
      ++ (pointer T.probe_set).addresses x.probes

  unfoldable pub copy_control_plane_component :
      StoredControlPlaneComponent (memory T) → ℕ → StoredControlPlaneComponent (memory T) × ℕ
  copy_control_plane_component x n =
      let (extra_volume_mounts, n1) = (slice T.volume_mount).copy_into x.extra_volume_mounts n in
      let (extra_args, n2) = (slice (plain String)).copy_into x.extra_args n1 in
      let (resources, n3) = T.resource_requirements.copy_into x.resources n2 in
      let (probes, n4) = (pointer T.probe_set).copy_into x.probes n3 in
      (
        record x {
          extra_volume_mounts = extra_volume_mounts;
          extra_args = extra_args;
          resources = resources;
          probes = probes;
        },
        n4,
      )

  abbrev pub of_control_plane_component : Copyable
  of_control_plane_component = record {
    Carrier = StoredControlPlaneComponent (memory T);
    Contents = StoredControlPlaneComponent (bare T);
    contents = contents_control_plane_component;
    addresses = addresses_control_plane_component;
    copy_into = copy_control_plane_component;
  }

  abbrev pub deep_copy_control_plane_component :
      Option (Ref (StoredControlPlaneComponent (memory T)))
      → ℕ
      → Option (Ref (StoredControlPlaneComponent (memory T))) × ℕ
  deep_copy_control_plane_component = copy_pointer of_control_plane_component

  pub copy_control_plane_component-IsDeep : AreDeep T → IsDeep of_control_plane_component
  unfolding contents_control_plane_component addresses_control_plane_component
      copy_control_plane_component
  copy_control_plane_component-IsDeep L = record {
    is_copy = λ x n.
        let i1 = (slice-IsDeep L.volume_mount).is_copy x.extra_volume_mounts n in
        let i2 = (slice-IsDeep (plain-IsDeep String)).is_copy x.extra_args (after i1) in
        let i3 = L.resource_requirements.is_copy x.resources (after i2) in
        let i4 = (pointer-IsDeep L.probe_set).is_copy x.probes (after i3) in
        record {
          same = λ j. record (contents_control_plane_component x) {
            extra_volume_mounts = i1.same j;
            extra_args = i2.same j;
            resources = i3.same j;
            probes = i4.same j;
          };
          addresses = i1.addresses & i2.addresses & i3.addresses & i4.addresses;
        };
  }

  unfoldable pub contents_kine_component :
      StoredKineComponent (memory T) → StoredKineComponent (bare T)
  contents_kine_component x = record {
    extra_args = (slice (plain String)).contents x.extra_args;
    resources = T.resource_requirements.contents x.resources;
  }

  unfoldable pub addresses_kine_component : StoredKineComponent (memory T) → List ℕ
  addresses_kine_component x =
      (slice (plain String)).addresses x.extra_args ++ T.resource_requirements.addresses x.resources

  unfoldable pub copy_kine_component :
      StoredKineComponent (memory T) → ℕ → StoredKineComponent (memory T) × ℕ
  copy_kine_component x n =
      let (extra_args, n1) = (slice (plain String)).copy_into x.extra_args n in
      let (resources, n2) = T.resource_requirements.copy_into x.resources n1 in
      (record x { extra_args = extra_args; resources = resources }, n2)

  abbrev pub of_kine_component : Copyable
  of_kine_component = record {
    Carrier = StoredKineComponent (memory T);
    Contents = StoredKineComponent (bare T);
    contents = contents_kine_component;
    addresses = addresses_kine_component;
    copy_into = copy_kine_component;
  }

  abbrev pub deep_copy_kine_component :
      Option (Ref (StoredKineComponent (memory T)))
      → ℕ
      → Option (Ref (StoredKineComponent (memory T))) × ℕ
  deep_copy_kine_component = copy_pointer of_kine_component

  pub copy_kine_component-IsDeep : AreDeep T → IsDeep of_kine_component
  unfolding contents_kine_component addresses_kine_component copy_kine_component
  copy_kine_component-IsDeep L = record {
    is_copy = λ x n.
        let i1 = (slice-IsDeep (plain-IsDeep String)).is_copy x.extra_args n in
        let i2 = L.resource_requirements.is_copy x.resources (after i1) in
        record {
          same = λ j. record (contents_kine_component x) {
            extra_args = i1.same j;
            resources = i2.same j;
          };
          addresses = i1.addresses & i2.addresses;
        };
  }
