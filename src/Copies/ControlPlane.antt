-- ===== src/Copies/ControlPlane.antt =====
-- Copies of KamajiControlPlanes and their lists.
use cluster_api_control_plan.Base.{ℕ, Option, List, ◌++◌}
use cluster_api_control_plan.Copies.Memory.{
  Ref, Copyable, slice, copy_pointer, IsDeep, slice-IsDeep, ◌&◌, after,
}
use cluster_api_control_plan.Copies.Foreign.{Kinds, Types, memory, bare, flat, AreDeep, flat-IsDeep}
use cluster_api_control_plan.Copies.Spec.{StoredKamajiControlPlaneSpec, of_spec, copy_spec-IsDeep}
use cluster_api_control_plan.Copies.Status.{
  StoredKamajiControlPlaneStatus, of_status, copy_status-IsDeep,
}

module _ (S : Kinds) where
  pub record StoredKamajiControlPlane : Type 0 where
    pub type_meta : S.TypeMeta
    pub meta : S.ObjectMeta
    pub spec : StoredKamajiControlPlaneSpec S
    pub status : StoredKamajiControlPlaneStatus S

  pub record StoredKamajiControlPlaneList : Type 0 where
    pub type_meta : S.TypeMeta
    pub meta : S.ListMeta
    pub items : Option (S.Ref (List (StoredKamajiControlPlane)))

module _ (T : Types) where
  unfoldable pub contents_control_plane :
      StoredKamajiControlPlane (memory T) → StoredKamajiControlPlane (bare T)
  contents_control_plane x = record {
    type_meta = (flat T.type_meta).contents x.type_meta;
    meta = T.object_meta.contents x.meta;
    spec = (of_spec T).contents x.spec;
    status = (of_status T).contents x.status;
  }

  unfoldable pub addresses_control_plane : StoredKamajiControlPlane (memory T) → List ℕ
  addresses_control_plane x =
      (flat T.type_meta).addresses x.type_meta
      ++ T.object_meta.addresses x.meta
      ++ (of_spec T).addresses x.spec
      ++ (of_status T).addresses x.status

  unfoldable pub copy_control_plane :
      StoredKamajiControlPlane (memory T) → ℕ → StoredKamajiControlPlane (memory T) × ℕ
  copy_control_plane x n =
      let (type_meta, n1) = (flat T.type_meta).copy_into x.type_meta n in
      let (meta, n2) = T.object_meta.copy_into x.meta n1 in
      let (spec, n3) = (of_spec T).copy_into x.spec n2 in
      let (status, n4) = (of_status T).copy_into x.status n3 in
      (record x { type_meta = type_meta; meta = meta; spec = spec; status = status }, n4)

  abbrev pub of_control_plane : Copyable
  of_control_plane = record {
    Carrier = StoredKamajiControlPlane (memory T);
    Contents = StoredKamajiControlPlane (bare T);
    contents = contents_control_plane;
    addresses = addresses_control_plane;
    copy_into = copy_control_plane;
  }

  abbrev pub deep_copy_control_plane :
      Option (Ref (StoredKamajiControlPlane (memory T)))
      → ℕ
      → Option (Ref (StoredKamajiControlPlane (memory T))) × ℕ
  deep_copy_control_plane = copy_pointer of_control_plane

  pub copy_control_plane-IsDeep : AreDeep T → IsDeep of_control_plane
  unfolding contents_control_plane addresses_control_plane copy_control_plane
  copy_control_plane-IsDeep L = record {
    is_copy = λ x n.
        let i1 = (flat-IsDeep T.type_meta L.type_meta).is_copy x.type_meta n in
        let i2 = L.object_meta.is_copy x.meta (after i1) in
        let i3 = (copy_spec-IsDeep T L).is_copy x.spec (after i2) in
        let i4 = (copy_status-IsDeep T L).is_copy x.status (after i3) in
        record {
          same = λ j. record (contents_control_plane x) {
            type_meta = i1.same j;
            meta = i2.same j;
            spec = i3.same j;
            status = i4.same j;
          };
          addresses = i1.addresses & i2.addresses & i3.addresses & i4.addresses;
        };
  }

  unfoldable pub contents_control_plane_list :
      StoredKamajiControlPlaneList (memory T) → StoredKamajiControlPlaneList (bare T)
  contents_control_plane_list x = record {
    type_meta = (flat T.type_meta).contents x.type_meta;
    meta = T.list_meta.contents x.meta;
    items = (slice of_control_plane).contents x.items;
  }

  unfoldable pub addresses_control_plane_list : StoredKamajiControlPlaneList (memory T) → List ℕ
  addresses_control_plane_list x =
      (flat T.type_meta).addresses x.type_meta
      ++ T.list_meta.addresses x.meta
      ++ (slice of_control_plane).addresses x.items

  unfoldable pub copy_control_plane_list :
      StoredKamajiControlPlaneList (memory T) → ℕ → StoredKamajiControlPlaneList (memory T) × ℕ
  copy_control_plane_list x n =
      let (type_meta, n1) = (flat T.type_meta).copy_into x.type_meta n in
      let (meta, n2) = T.list_meta.copy_into x.meta n1 in
      let (items, n3) = (slice of_control_plane).copy_into x.items n2 in
      (record x { type_meta = type_meta; meta = meta; items = items }, n3)

  abbrev pub of_control_plane_list : Copyable
  of_control_plane_list = record {
    Carrier = StoredKamajiControlPlaneList (memory T);
    Contents = StoredKamajiControlPlaneList (bare T);
    contents = contents_control_plane_list;
    addresses = addresses_control_plane_list;
    copy_into = copy_control_plane_list;
  }

  abbrev pub deep_copy_control_plane_list :
      Option (Ref (StoredKamajiControlPlaneList (memory T)))
      → ℕ
      → Option (Ref (StoredKamajiControlPlaneList (memory T))) × ℕ
  deep_copy_control_plane_list = copy_pointer of_control_plane_list

  pub copy_control_plane_list-IsDeep : AreDeep T → IsDeep of_control_plane_list
  unfolding contents_control_plane_list addresses_control_plane_list copy_control_plane_list
  copy_control_plane_list-IsDeep L = record {
    is_copy = λ x n.
        let i1 = (flat-IsDeep T.type_meta L.type_meta).is_copy x.type_meta n in
        let i2 = L.list_meta.is_copy x.meta (after i1) in
        let i3 = (slice-IsDeep (copy_control_plane-IsDeep L)).is_copy x.items (after i2) in
        record {
          same = λ j. record (contents_control_plane_list x) {
            type_meta = i1.same j;
            meta = i2.same j;
            items = i3.same j;
          };
          addresses = i1.addresses & i2.addresses & i3.addresses;
        };
  }
