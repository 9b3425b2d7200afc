-- ===== src/Copies/Addons.antt =====
-- Copies of addons.
use cluster_api_control_plan.Base.{ℕ, String, Option, List, ◌++◌}
use cluster_api_control_plan.Copies.Memory.{
  Ref, Copyable, plain, pointer, slice, copy_pointer, IsDeep, plain-IsDeep, pointer-IsDeep,
  slice-IsDeep, ◌&◌, after,
}
use cluster_api_control_plan.Copies.Foreign.{Kinds, Types, memory, bare, flat, AreDeep, flat-IsDeep}

module _ (S : Kinds) where
  pub record StoredCoreDnsAddonSpec : Type 0 where
    pub addon_spec : Option (S.Ref S.AddonSpec)
    pub dns_service_ips : Option (S.Ref (List String))

  pub record StoredAddonsSpec : Type 0 where
    pub addons_spec : S.AddonsSpec
    pub core_dns : Option (S.Ref (StoredCoreDnsAddonSpec))

module _ (T : Types) where
  unfoldable pub contents_core_dns_addon_spec :
      StoredCoreDnsAddonSpec (memory T) → StoredCoreDnsAddonSpec (bare T)
  contents_core_dns_addon_spec x = record {
    addon_spec = (pointer (flat T.addon_spec)).contents x.addon_spec;
    dns_service_ips = (slice (plain String)).contents x.dns_service_ips;
  }

  unfoldable pub addresses_core_dns_addon_spec : StoredCoreDnsAddonSpec (memory T) → List ℕ
  addresses_core_dns_addon_spec x =
      (pointer (flat T.addon_spec)).addresses x.addon_spec
      ++ (slice (plain String)).addresses x.dns_service_ips

  unfoldable pub copy_core_dns_addon_spec :
      StoredCoreDnsAddonSpec (memory T) → ℕ → StoredCoreDnsAddonSpec (memory T) × ℕ
  copy_core_dns_addon_spec x n =
      let (addon_spec, n1) = (pointer (flat T.addon_spec)).copy_into x.addon_spec n in
      let (dns_service_ips, n2) = (slice (plain String)).copy_into x.dns_service_ips n1 in
      (record x { addon_spec = addon_spec; dns_service_ips = dns_service_ips }, n2)

  abbrev pub of_core_dns_addon_spec : Copyable
  of_core_dns_addon_spec = record {
    Carrier = StoredCoreDnsAddonSpec (memory T);
    Contents = StoredCoreDnsAddonSpec (bare T);
    contents = contents_core_dns_addon_spec;
    addresses = addresses_core_dns_addon_spec;
    copy_into = copy_core_dns_addon_spec;
  }

  abbrev pub deep_copy_core_dns_addon_spec :
      Option (Ref (StoredCoreDnsAddonSpec (memory T)))
      → ℕ
      → Option (Ref (StoredCoreDnsAddonSpec (memory T))) × ℕ
  deep_copy_core_dns_addon_spec = copy_pointer of_core_dns_addon_spec

  pub copy_core_dns_addon_spec-IsDeep : AreDeep T → IsDeep of_core_dns_addon_spec
  unfolding contents_core_dns_addon_spec addresses_core_dns_addon_spec copy_core_dns_addon_spec
  copy_core_dns_addon_spec-IsDeep L = record {
    is_copy = λ x n.
        let i1 = (pointer-IsDeep (flat-IsDeep T.addon_spec L.addon_spec)).is_copy x.addon_spec n in
        let i2 = (slice-IsDeep (plain-IsDeep String)).is_copy x.dns_service_ips (after i1) in
        record {
          same = λ j. record (contents_core_dns_addon_spec x) {
            addon_spec = i1.same j;
            dns_service_ips = i2.same j;
          };
          addresses = i1.addresses & i2.addresses;
        };
  }

  unfoldable pub contents_addons_spec : StoredAddonsSpec (memory T) → StoredAddonsSpec (bare T)
  contents_addons_spec x = record {
    addons_spec = T.addons_spec.contents x.addons_spec;
    core_dns = (pointer of_core_dns_addon_spec).contents x.core_dns;
  }

  unfoldable pub addresses_addons_spec : StoredAddonsSpec (memory T) → List ℕ
  addresses_addons_spec x =
      T.addons_spec.addresses x.addons_spec ++ (pointer of_core_dns_addon_spec).addresses x.core_dns

  unfoldable pub copy_addons_spec :
      StoredAddonsSpec (memory T) → ℕ → StoredAddonsSpec (memory T) × ℕ
  copy_addons_spec x n =
      let (addons_spec, n1) = T.addons_spec.copy_into x.addons_spec n in
      let (core_dns, n2) = (pointer of_core_dns_addon_spec).copy_into x.core_dns n1 in
      (record x { addons_spec = addons_spec; core_dns = core_dns }, n2)

  abbrev pub of_addons_spec : Copyable
  of_addons_spec = record {
    Carrier = StoredAddonsSpec (memory T);
    Contents = StoredAddonsSpec (bare T);
    contents = contents_addons_spec;
    addresses = addresses_addons_spec;
    copy_into = copy_addons_spec;
  }

  abbrev pub deep_copy_addons_spec :
      Option (Ref (StoredAddonsSpec (memory T)))
      → ℕ
      → Option (Ref (StoredAddonsSpec (memory T))) × ℕ
  deep_copy_addons_spec = copy_pointer of_addons_spec

  pub copy_addons_spec-IsDeep : AreDeep T → IsDeep of_addons_spec
  unfolding contents_addons_spec addresses_addons_spec copy_addons_spec
  copy_addons_spec-IsDeep L = record {
    is_copy = λ x n.
        let i1 = L.addons_spec.is_copy x.addons_spec n in
        let i2 =
          (pointer-IsDeep (copy_core_dns_addon_spec-IsDeep L)).is_copy x.core_dns (after i1) in
        record {
          same = λ j. record (contents_addons_spec x) {
            addons_spec = i1.same j;
            core_dns = i2.same j;
          };
          addresses = i1.addresses & i2.addresses;
        };
  }
