-- ===== src/Copies/Exposure.antt =====
-- Copies of what exposes a control plane: a gateway, an ingress, a load balancer.
use cluster_api_control_plan.Base.{ℕ, String, Option, List, ◌++◌, Entries}
use cluster_api_control_plan.Base.Int.{ℤ}
use cluster_api_control_plan.Copies.Memory.{
  Ref, Copyable, plain, pointer, slice, string_map, copy_pointer, IsDeep, plain-IsDeep,
  pointer-IsDeep, slice-IsDeep, string_map-IsDeep, ◌&◌, after,
}
use cluster_api_control_plan.Copies.Foreign.{Kinds, Types, memory, bare, AreDeep}

module _ (S : Kinds) where
  pub record StoredGatewayComponent : Type 0 where
    pub name : String
    pub namespace : String
    pub hostname : String
    pub section_name : String
    pub port : Option (S.Ref ℤ)
    pub extra_labels : Option (S.Ref (Entries String))
    pub extra_annotations : Option (S.Ref (Entries String))

  pub record StoredIngressComponent : Type 0 where
    pub class_name : String
    pub hostname : String
    pub extra_labels : Option (S.Ref (Entries String))
    pub extra_annotations : Option (S.Ref (Entries String))

  pub record StoredLoadBalancerConfig : Type 0 where
    pub source_ranges : Option (S.Ref (List String))
    pub class : Option (S.Ref String)

module _ (T : Types) where
  unfoldable pub contents_gateway_component :
      StoredGatewayComponent (memory T) → StoredGatewayComponent (bare T)
  contents_gateway_component x = record {
    name = x.name;
    namespace = x.namespace;
    hostname = x.hostname;
    section_name = x.section_name;
    port = (pointer (plain ℤ)).contents x.port;
    extra_labels = string_map.contents x.extra_labels;
    extra_annotations = string_map.contents x.extra_annotations;
  }

  unfoldable pub addresses_gateway_component : StoredGatewayComponent (memory T) → List ℕ
  addresses_gateway_component x =
      (pointer (plain ℤ)).addresses x.port
      ++ string_map.addresses x.extra_labels
      ++ string_map.addresses x.extra_annotations

  unfoldable pub copy_gateway_component :
      StoredGatewayComponent (memory T) → ℕ → StoredGatewayComponent (memory T) × ℕ
  copy_gateway_component x n =
      let (port, n1) = (pointer (plain ℤ)).copy_into x.port n in
      let (extra_labels, n2) = string_map.copy_into x.extra_labels n1 in
      let (extra_annotations, n3) = string_map.copy_into x.extra_annotations n2 in
      (
        record x {
          port = port;
          extra_labels = extra_labels;
          extra_annotations = extra_annotations;
        },
        n3,
      )

  abbrev pub of_gateway_component : Copyable
  of_gateway_component = record {
    Carrier = StoredGatewayComponent (memory T);
    Contents = StoredGatewayComponent (bare T);
    contents = contents_gateway_component;
    addresses = addresses_gateway_component;
    copy_into = copy_gateway_component;
  }

  abbrev pub deep_copy_gateway_component :
      Option (Ref (StoredGatewayComponent (memory T)))
      → ℕ
      → Option (Ref (StoredGatewayComponent (memory T))) × ℕ
  deep_copy_gateway_component = copy_pointer of_gateway_component

  pub copy_gateway_component-IsDeep : AreDeep T → IsDeep of_gateway_component
  unfolding contents_gateway_component addresses_gateway_component copy_gateway_component
  copy_gateway_component-IsDeep L = record {
    is_copy = λ x n.
        let i1 = (pointer-IsDeep (plain-IsDeep ℤ)).is_copy x.port n in
        let i2 = string_map-IsDeep.is_copy x.extra_labels (after i1) in
        let i3 = string_map-IsDeep.is_copy x.extra_annotations (after i2) in
        record {
          same = λ j. record (contents_gateway_component x) {
            port = i1.same j;
            extra_labels = i2.same j;
            extra_annotations = i3.same j;
          };
          addresses = i1.addresses & i2.addresses & i3.addresses;
        };
  }

  unfoldable pub contents_ingress_component :
      StoredIngressComponent (memory T) → StoredIngressComponent (bare T)
  contents_ingress_component x = record {
    class_name = x.class_name;
    hostname = x.hostname;
    extra_labels = string_map.contents x.extra_labels;
    extra_annotations = string_map.contents x.extra_annotations;
  }

  unfoldable pub addresses_ingress_component : StoredIngressComponent (memory T) → List ℕ
  addresses_ingress_component x =
      string_map.addresses x.extra_labels ++ string_map.addresses x.extra_annotations

  unfoldable pub copy_ingress_component :
      StoredIngressComponent (memory T) → ℕ → StoredIngressComponent (memory T) × ℕ
  copy_ingress_component x n =
      let (extra_labels, n1) = string_map.copy_into x.extra_labels n in
      let (extra_annotations, n2) = string_map.copy_into x.extra_annotations n1 in
      (record x { extra_labels = extra_labels; extra_annotations = extra_annotations }, n2)

  abbrev pub of_ingress_component : Copyable
  of_ingress_component = record {
    Carrier = StoredIngressComponent (memory T);
    Contents = StoredIngressComponent (bare T);
    contents = contents_ingress_component;
    addresses = addresses_ingress_component;
    copy_into = copy_ingress_component;
  }

  abbrev pub deep_copy_ingress_component :
      Option (Ref (StoredIngressComponent (memory T)))
      → ℕ
      → Option (Ref (StoredIngressComponent (memory T))) × ℕ
  deep_copy_ingress_component = copy_pointer of_ingress_component

  pub copy_ingress_component-IsDeep : AreDeep T → IsDeep of_ingress_component
  unfolding contents_ingress_component addresses_ingress_component copy_ingress_component
  copy_ingress_component-IsDeep L = record {
    is_copy = λ x n.
        let i1 = string_map-IsDeep.is_copy x.extra_labels n in
        let i2 = string_map-IsDeep.is_copy x.extra_annotations (after i1) in
        record {
          same = λ j. record (contents_ingress_component x) {
            extra_labels = i1.same j;
            extra_annotations = i2.same j;
          };
          addresses = i1.addresses & i2.addresses;
        };
  }

  unfoldable pub contents_load_balancer_config :
      StoredLoadBalancerConfig (memory T) → StoredLoadBalancerConfig (bare T)
  contents_load_balancer_config x = record {
    source_ranges = (slice (plain String)).contents x.source_ranges;
    class = (pointer (plain String)).contents x.class;
  }

  unfoldable pub addresses_load_balancer_config : StoredLoadBalancerConfig (memory T) → List ℕ
  addresses_load_balancer_config x =
      (slice (plain String)).addresses x.source_ranges ++ (pointer (plain String)).addresses x.class

  unfoldable pub copy_load_balancer_config :
      StoredLoadBalancerConfig (memory T) → ℕ → StoredLoadBalancerConfig (memory T) × ℕ
  copy_load_balancer_config x n =
      let (source_ranges, n1) = (slice (plain String)).copy_into x.source_ranges n in
      let (class, n2) = (pointer (plain String)).copy_into x.class n1 in
      (record x { source_ranges = source_ranges; class = class }, n2)

  abbrev pub of_load_balancer_config : Copyable
  of_load_balancer_config = record {
    Carrier = StoredLoadBalancerConfig (memory T);
    Contents = StoredLoadBalancerConfig (bare T);
    contents = contents_load_balancer_config;
    addresses = addresses_load_balancer_config;
    copy_into = copy_load_balancer_config;
  }

  abbrev pub deep_copy_load_balancer_config :
      Option (Ref (StoredLoadBalancerConfig (memory T)))
      → ℕ
      → Option (Ref (StoredLoadBalancerConfig (memory T))) × ℕ
  deep_copy_load_balancer_config = copy_pointer of_load_balancer_config

  pub copy_load_balancer_config-IsDeep : AreDeep T → IsDeep of_load_balancer_config
  unfolding contents_load_balancer_config addresses_load_balancer_config copy_load_balancer_config
  copy_load_balancer_config-IsDeep L = record {
    is_copy = λ x n.
        let i1 = (slice-IsDeep (plain-IsDeep String)).is_copy x.source_ranges n in
        let i2 = (pointer-IsDeep (plain-IsDeep String)).is_copy x.class (after i1) in
        record {
          same = λ j. record (contents_load_balancer_config x) {
            source_ranges = i1.same j;
            class = i2.same j;
          };
          addresses = i1.addresses & i2.addresses;
        };
  }
