-- ===== src/Copies/Template.antt =====
-- Copies of KamajiControlPlaneTemplates and their lists.
use cluster_api_control_plan.Base.{ℕ, Option, List, ◌++◌}
use cluster_api_control_plan.Copies.Memory.{
  Ref, Copyable, slice, copy_pointer, IsDeep, slice-IsDeep, ◌&◌, after,
}
use cluster_api_control_plan.Copies.Foreign.{Kinds, Types, memory, bare, flat, AreDeep, flat-IsDeep}
use cluster_api_control_plan.Copies.Spec.{
  StoredKamajiControlPlaneFields, of_fields, copy_fields-IsDeep,
}

module _ (S : Kinds) where
  pub record StoredKamajiControlPlaneTemplateResource : Type 0 where
    pub meta : S.ClusterObjectMeta
    pub spec : StoredKamajiControlPlaneFields S

  pub record StoredKamajiControlPlaneTemplateSpec : Type 0 where
    pub template : StoredKamajiControlPlaneTemplateResource

  pub record StoredKamajiControlPlaneTemplate : Type 0 where
    pub type_meta : S.TypeMeta
    pub meta : S.ObjectMeta
    pub spec : StoredKamajiControlPlaneTemplateSpec

  pub record StoredKamajiControlPlaneTemplateList : Type 0 where
    pub type_meta : S.TypeMeta
    pub meta : S.ListMeta
    pub items : Option (S.Ref (List (StoredKamajiControlPlaneTemplate)))

module _ (T : Types) where
  unfoldable pub contents_template_resource :
      StoredKamajiControlPlaneTemplateResource (memory T)
      → StoredKamajiControlPlaneTemplateResource (bare T)
  contents_template_resource x = record {
    meta = T.cluster_object_meta.contents x.meta;
    spec = (of_fields T).contents x.spec;
  }

  unfoldable pub addresses_template_resource :
      StoredKamajiControlPlaneTemplateResource (memory T) → List ℕ
  addresses_template_resource x =
      T.cluster_object_meta.addresses x.meta ++ (of_fields T).addresses x.spec

  unfoldable pub copy_template_resource :
      StoredKamajiControlPlaneTemplateResource (memory T)
      → ℕ
      → StoredKamajiControlPlaneTemplateResource (memory T) × ℕ
  copy_template_resource x n =
      let (meta, n1) = T.cluster_object_meta.copy_into x.meta n in
      let (spec, n2) = (of_fields T).copy_into x.spec n1 in
      (record x { meta = meta; spec = spec }, n2)

  abbrev pub of_template_resource : Copyable
  of_template_resource = record {
    Carrier = StoredKamajiControlPlaneTemplateResource (memory T);
    Contents = StoredKamajiControlPlaneTemplateResource (bare T);
    contents = contents_template_resource;
    addresses = addresses_template_resource;
    copy_into = copy_template_resource;
  }

  abbrev pub deep_copy_template_resource :
      Option (Ref (StoredKamajiControlPlaneTemplateResource (memory T)))
      → ℕ
      → Option (Ref (StoredKamajiControlPlaneTemplateResource (memory T))) × ℕ
  deep_copy_template_resource = copy_pointer of_template_resource

  pub copy_template_resource-IsDeep : AreDeep T → IsDeep of_template_resource
  unfolding contents_template_resource addresses_template_resource copy_template_resource
  copy_template_resource-IsDeep L = record {
    is_copy = λ x n.
        let i1 = L.cluster_object_meta.is_copy x.meta n in
        let i2 = (copy_fields-IsDeep T L).is_copy x.spec (after i1) in
        record {
          same = λ j. record (contents_template_resource x) { meta = i1.same j; spec = i2.same j };
          addresses = i1.addresses & i2.addresses;
        };
  }

  unfoldable pub contents_template_spec :
      StoredKamajiControlPlaneTemplateSpec (memory T)
      → StoredKamajiControlPlaneTemplateSpec (bare T)
  contents_template_spec x = record { template = of_template_resource.contents x.template }

  unfoldable pub addresses_template_spec : StoredKamajiControlPlaneTemplateSpec (memory T) → List ℕ
  addresses_template_spec x = of_template_resource.addresses x.template

  unfoldable pub copy_template_spec :
      StoredKamajiControlPlaneTemplateSpec (memory T)
      → ℕ
      → StoredKamajiControlPlaneTemplateSpec (memory T) × ℕ
  copy_template_spec x n =
      let (template, n1) = of_template_resource.copy_into x.template n in
      (record x { template = template }, n1)

  abbrev pub of_template_spec : Copyable
  of_template_spec = record {
    Carrier = StoredKamajiControlPlaneTemplateSpec (memory T);
    Contents = StoredKamajiControlPlaneTemplateSpec (bare T);
    contents = contents_template_spec;
    addresses = addresses_template_spec;
    copy_into = copy_template_spec;
  }

  abbrev pub deep_copy_template_spec :
      Option (Ref (StoredKamajiControlPlaneTemplateSpec (memory T)))
      → ℕ
      → Option (Ref (StoredKamajiControlPlaneTemplateSpec (memory T))) × ℕ
  deep_copy_template_spec = copy_pointer of_template_spec

  pub copy_template_spec-IsDeep : AreDeep T → IsDeep of_template_spec
  unfolding contents_template_spec addresses_template_spec copy_template_spec
  copy_template_spec-IsDeep L = record {
    is_copy = λ x n.
        let i1 = (copy_template_resource-IsDeep L).is_copy x.template n in
        record {
          same = λ j. record (contents_template_spec x) { template = i1.same j };
          addresses = i1.addresses;
        };
  }

  unfoldable pub contents_template :
      StoredKamajiControlPlaneTemplate (memory T) → StoredKamajiControlPlaneTemplate (bare T)
  contents_template x = record {
    type_meta = (flat T.type_meta).contents x.type_meta;
    meta = T.object_meta.contents x.meta;
    spec = of_template_spec.contents x.spec;
  }

  unfoldable pub addresses_template : StoredKamajiControlPlaneTemplate (memory T) → List ℕ
  addresses_template x =
      (flat T.type_meta).addresses x.type_meta
      ++ T.object_meta.addresses x.meta
      ++ of_template_spec.addresses x.spec

  unfoldable pub copy_template :
      StoredKamajiControlPlaneTemplate (memory T)
      → ℕ
      → StoredKamajiControlPlaneTemplate (memory T) × ℕ
  copy_template x n =
      let (type_meta, n1) = (flat T.type_meta).copy_into x.type_meta n in
      let (meta, n2) = T.object_meta.copy_into x.meta n1 in
      let (spec, n3) = of_template_spec.copy_into x.spec n2 in
      (record x { type_meta = type_meta; meta = meta; spec = spec }, n3)

  abbrev pub of_template : Copyable
  of_template = record {
    Carrier = StoredKamajiControlPlaneTemplate (memory T);
    Contents = StoredKamajiControlPlaneTemplate (bare T);
    contents = contents_template;
    addresses = addresses_template;
    copy_into = copy_template;
  }

  abbrev pub deep_copy_template :
      Option (Ref (StoredKamajiControlPlaneTemplate (memory T)))
      → ℕ
      → Option (Ref (StoredKamajiControlPlaneTemplate (memory T))) × ℕ
  deep_copy_template = copy_pointer of_template

  pub copy_template-IsDeep : AreDeep T → IsDeep of_template
  unfolding contents_template addresses_template copy_template
  copy_template-IsDeep L = record {
    is_copy = λ x n.
        let i1 = (flat-IsDeep T.type_meta L.type_meta).is_copy x.type_meta n in
        let i2 = L.object_meta.is_copy x.meta (after i1) in
        let i3 = (copy_template_spec-IsDeep L).is_copy x.spec (after i2) in
        record {
          same = λ j. record (contents_template x) {
            type_meta = i1.same j;
            meta = i2.same j;
            spec = i3.same j;
          };
          addresses = i1.addresses & i2.addresses & i3.addresses;
        };
  }

  unfoldable pub contents_template_list :
      StoredKamajiControlPlaneTemplateList (memory T)
      → StoredKamajiControlPlaneTemplateList (bare T)
  contents_template_list x = record {
    type_meta = (flat T.type_meta).contents x.type_meta;
    meta = T.list_meta.contents x.meta;
    items = (slice of_template).contents x.items;
  }

  unfoldable pub addresses_template_list : StoredKamajiControlPlaneTemplateList (memory T) → List ℕ
  addresses_template_list x =
      (flat T.type_meta).addresses x.type_meta
      ++ T.list_meta.addresses x.meta
      ++ (slice of_template).addresses x.items

  unfoldable pub copy_template_list :
      StoredKamajiControlPlaneTemplateList (memory T)
      → ℕ
      → StoredKamajiControlPlaneTemplateList (memory T) × ℕ
  copy_template_list x n =
      let (type_meta, n1) = (flat T.type_meta).copy_into x.type_meta n in
      let (meta, n2) = T.list_meta.copy_into x.meta n1 in
      let (items, n3) = (slice of_template).copy_into x.items n2 in
      (record x { type_meta = type_meta; meta = meta; items = items }, n3)

  abbrev pub of_template_list : Copyable
  of_template_list = record {
    Carrier = StoredKamajiControlPlaneTemplateList (memory T);
    Contents = StoredKamajiControlPlaneTemplateList (bare T);
    contents = contents_template_list;
    addresses = addresses_template_list;
    copy_into = copy_template_list;
  }

  abbrev pub deep_copy_template_list :
      Option (Ref (StoredKamajiControlPlaneTemplateList (memory T)))
      → ℕ
      → Option (Ref (StoredKamajiControlPlaneTemplateList (memory T))) × ℕ
  deep_copy_template_list = copy_pointer of_template_list

  pub copy_template_list-IsDeep : AreDeep T → IsDeep of_template_list
  unfolding contents_template_list addresses_template_list copy_template_list
  copy_template_list-IsDeep L = record {
    is_copy = λ x n.
        let i1 = (flat-IsDeep T.type_meta L.type_meta).is_copy x.type_meta n in
        let i2 = L.list_meta.is_copy x.meta (after i1) in
        let i3 = (slice-IsDeep (copy_template-IsDeep L)).is_copy x.items (after i2) in
        record {
          same = λ j. record (contents_template_list x) {
            type_meta = i1.same j;
            meta = i2.same j;
            items = i3.same j;
          };
          addresses = i1.addresses & i2.addresses & i3.addresses;
        };
  }
