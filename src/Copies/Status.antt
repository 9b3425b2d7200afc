-- ===== src/Copies/Status.antt =====
-- Copies of the status.
use cluster_api_control_plan.Base.{ℕ, String, Bool, Option, List, ◌++◌}
use cluster_api_control_plan.Base.Int.{ℤ}
use cluster_api_control_plan.Copies.Memory.{
  Ref, Copyable, plain, pointer, slice, copy_pointer, IsDeep, plain-IsDeep, pointer-IsDeep,
  slice-IsDeep, ◌&◌, after,
}
use cluster_api_control_plan.Copies.Foreign.{Kinds, Types, memory, bare, AreDeep}

module _ (S : Kinds) where
  pub record StoredKamajiControlPlaneInitializationStatus : Type 0 where
    pub control_plane_initialized : Option (S.Ref Bool)

  pub record StoredKamajiControlPlaneStatus : Type 0 where
    pub initialization : Option (S.Ref (StoredKamajiControlPlaneInitializationStatus))
    pub ready : Bool
    pub ready_replicas : Option (S.Ref ℤ)
    pub replicas : Option (S.Ref ℤ)
    pub selector : Option (S.Ref String)
    pub available_replicas : Option (S.Ref ℤ)
    pub up_to_date_replicas : Option (S.Ref ℤ)
    pub external_managed_control_plane : Option (S.Ref Bool)
    pub failure_reason : String
    pub failure_message : String
    pub version : String
    pub conditions : Option (S.Ref (List S.Condition))

module _ (T : Types) where
  unfoldable pub contents_initialization_status :
      StoredKamajiControlPlaneInitializationStatus (memory T)
      → StoredKamajiControlPlaneInitializationStatus (bare T)
  contents_initialization_status x = record {
    control_plane_initialized = (pointer (plain Bool)).contents x.control_plane_initialized;
  }

  unfoldable pub addresses_initialization_status :
      StoredKamajiControlPlaneInitializationStatus (memory T) → List ℕ
  addresses_initialization_status x = (pointer (plain Bool)).addresses x.control_plane_initialized

  unfoldable pub copy_initialization_status :
      StoredKamajiControlPlaneInitializationStatus (memory T)
      → ℕ
      → StoredKamajiControlPlaneInitializationStatus (memory T) × ℕ
  copy_initialization_status x n =
      let (control_plane_initialized, n1) =
        (pointer (plain Bool)).copy_into x.control_plane_initialized n in
      (record x { control_plane_initialized = control_plane_initialized }, n1)

  abbrev pub of_initialization_status : Copyable
  of_initialization_status = record {
    Carrier = StoredKamajiControlPlaneInitializationStatus (memory T);
    Contents = StoredKamajiControlPlaneInitializationStatus (bare T);
    contents = contents_initialization_status;
    addresses = addresses_initialization_status;
    copy_into = copy_initialization_status;
  }

  abbrev pub deep_copy_initialization_status :
      Option (Ref (StoredKamajiControlPlaneInitializationStatus (memory T)))
      → ℕ
      → Option (Ref (StoredKamajiControlPlaneInitializationStatus (memory T))) × ℕ
  deep_copy_initialization_status = copy_pointer of_initialization_status

  pub copy_initialization_status-IsDeep : AreDeep T → IsDeep of_initialization_status
  unfolding contents_initialization_status addresses_initialization_status
      copy_initialization_status
  copy_initialization_status-IsDeep L = record {
    is_copy = λ x n.
        let i1 = (pointer-IsDeep (plain-IsDeep Bool)).is_copy x.control_plane_initialized n in
        record {
          same = λ j. record (contents_initialization_status x) {
            control_plane_initialized = i1.same j;
          };
          addresses = i1.addresses;
        };
  }

  unfoldable pub contents_status :
      StoredKamajiControlPlaneStatus (memory T) → StoredKamajiControlPlaneStatus (bare T)
  contents_status x = record {
    initialization = (pointer of_initialization_status).contents x.initialization;
    ready = x.ready;
    ready_replicas = (pointer (plain ℤ)).contents x.ready_replicas;
    replicas = (pointer (plain ℤ)).contents x.replicas;
    selector = (pointer (plain String)).contents x.selector;
    available_replicas = (pointer (plain ℤ)).contents x.available_replicas;
    up_to_date_replicas = (pointer (plain ℤ)).contents x.up_to_date_replicas;
    external_managed_control_plane =
        (pointer (plain Bool)).contents x.external_managed_control_plane;
    failure_reason = x.failure_reason;
    failure_message = x.failure_message;
    version = x.version;
    conditions = (slice T.condition).contents x.conditions;
  }

  unfoldable pub addresses_status : StoredKamajiControlPlaneStatus (memory T) → List ℕ
  addresses_status x =
      (pointer of_initialization_status).addresses x.initialization
      ++ (pointer (plain ℤ)).addresses x.ready_replicas
      ++ (pointer (plain ℤ)).addresses x.replicas
      ++ (pointer (plain String)).addresses x.selector
      ++ (pointer (plain ℤ)).addresses x.available_replicas
      ++ (pointer (plain ℤ)).addresses x.up_to_date_replicas
      ++ (pointer (plain Bool)).addresses x.external_managed_control_plane
      ++ (slice T.condition).addresses x.conditions

  unfoldable pub copy_status :
      StoredKamajiControlPlaneStatus (memory T) → ℕ → StoredKamajiControlPlaneStatus (memory T) × ℕ
  copy_status x n =
      let (initialization, n1) = (pointer of_initialization_status).copy_into x.initialization n in
      let (ready_replicas, n2) = (pointer (plain ℤ)).copy_into x.ready_replicas n1 in
      let (replicas, n3) = (pointer (plain ℤ)).copy_into x.replicas n2 in
      let (selector, n4) = (pointer (plain String)).copy_into x.selector n3 in
      let (available_replicas, n5) = (pointer (plain ℤ)).copy_into x.available_replicas n4 in
      let (up_to_date_replicas, n6) = (pointer (plain ℤ)).copy_into x.up_to_date_replicas n5 in
      let (external_managed_control_plane, n7) =
        (pointer (plain Bool)).copy_into x.external_managed_control_plane n6 in
      let (conditions, n8) = (slice T.condition).copy_into x.conditions n7 in
      (
        record x {
          initialization = initialization;
          ready_replicas = ready_replicas;
          replicas = replicas;
          selector = selector;
          available_replicas = available_replicas;
          up_to_date_replicas = up_to_date_replicas;
          external_managed_control_plane = external_managed_control_plane;
          conditions = conditions;
        },
        n8,
      )

  abbrev pub of_status : Copyable
  of_status = record {
    Carrier = StoredKamajiControlPlaneStatus (memory T);
    Contents = StoredKamajiControlPlaneStatus (bare T);
    contents = contents_status;
    addresses = addresses_status;
    copy_into = copy_status;
  }

  abbrev pub deep_copy_status :
      Option (Ref (StoredKamajiControlPlaneStatus (memory T)))
      → ℕ
      → Option (Ref (StoredKamajiControlPlaneStatus (memory T))) × ℕ
  deep_copy_status = copy_pointer of_status

  pub copy_status-IsDeep : AreDeep T → IsDeep of_status
  unfolding contents_status addresses_status copy_status
  copy_status-IsDeep L = record {
    is_copy = λ x n.
        let i1 =
          (pointer-IsDeep (copy_initialization_status-IsDeep L)).is_copy x.initialization n in
        let i2 = (pointer-IsDeep (plain-IsDeep ℤ)).is_copy x.ready_replicas (after i1) in
        let i3 = (pointer-IsDeep (plain-IsDeep ℤ)).is_copy x.replicas (after i2) in
        let i4 = (pointer-IsDeep (plain-IsDeep String)).is_copy x.selector (after i3) in
        let i5 = (pointer-IsDeep (plain-IsDeep ℤ)).is_copy x.available_replicas (after i4) in
        let i6 = (pointer-IsDeep (plain-IsDeep ℤ)).is_copy x.up_to_date_replicas (after i5) in
        let i7 =
          (pointer-IsDeep (plain-IsDeep Bool)).is_copy x.external_managed_control_plane
            (after i6) in
        let i8 = (slice-IsDeep L.condition).is_copy x.conditions (after i7) in
        record {
          same = λ j. record (contents_status x) {
            initialization = i1.same j;
            ready_replicas = i2.same j;
            replicas = i3.same j;
            selector = i4.same j;
            available_replicas = i5.same j;
            up_to_date_replicas = i6.same j;
            external_managed_control_plane = i7.same j;
            conditions = i8.same j;
          };
          addresses =
              i1.addresses & i2.addresses & i3.addresses & i4.addresses & i5.addresses
              & i6.addresses & i7.addresses & i8.addresses;
        };
  }
