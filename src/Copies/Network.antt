-- ===== src/Copies/Network.antt =====
-- Copies of the network of a control plane.
use cluster_api_control_plan.Base.{ℕ, String, Option, List, ◌++◌, Entries}
use cluster_api_control_plan.Copies.Memory.{
  Ref, Copyable, plain, pointer, slice, string_map, copy_pointer, IsDeep, plain-IsDeep,
  pointer-IsDeep, slice-IsDeep, string_map-IsDeep, ◌&◌, after,
}
use cluster_api_control_plan.Copies.Foreign.{Kinds, Types, memory, bare, AreDeep}
use cluster_api_control_plan.Copies.Exposure.{
  StoredGatewayComponent, of_gateway_component, copy_gateway_component-IsDeep,
  StoredLoadBalancerConfig, of_load_balancer_config, copy_load_balancer_config-IsDeep,
  StoredIngressComponent, of_ingress_component, copy_ingress_component-IsDeep,
}

module _ (S : Kinds) where
  pub record StoredNetworkComponent : Type 0 where
    pub load_balancer_config : Option (S.Ref (StoredLoadBalancerConfig S))
    pub gateway : Option (S.Ref (StoredGatewayComponent S))
    pub ingress : Option (S.Ref (StoredIngressComponent S))
    pub service_type : String
    pub service_address : String
    pub advertise_address : String
    pub service_labels : Option (S.Ref (Entries String))
    pub service_annotations : Option (S.Ref (Entries String))
    pub additional_service_ports : Option (S.Ref (List S.AdditionalPort))
    pub cert_sans : Option (S.Ref (List String))
    pub dns_service_ips : Option (S.Ref (List String))

module _ (T : Types) where
  unfoldable pub contents_network_component :
      StoredNetworkComponent (memory T) → StoredNetworkComponent (bare T)
  contents_network_component x = record {
    load_balancer_config = (pointer (of_load_balancer_config T)).contents x.load_balancer_config;
    gateway = (pointer (of_gateway_component T)).contents x.gateway;
    ingress = (pointer (of_ingress_component T)).contents x.ingress;
    service_type = x.service_type;
    service_address = x.service_address;
    advertise_address = x.advertise_address;
    service_labels = string_map.contents x.service_labels;
    service_annotations = string_map.contents x.service_annotations;
    additional_service_ports = (slice T.additional_port).contents x.additional_service_ports;
    cert_sans = (slice (plain String)).contents x.cert_sans;
    dns_service_ips = (slice (plain String)).contents x.dns_service_ips;
  }

  unfoldable pub addresses_network_component : StoredNetworkComponent (memory T) → List ℕ
  addresses_network_component x =
      (pointer (of_load_balancer_config T)).addresses x.load_balancer_config
      ++ (pointer (of_gateway_component T)).addresses x.gateway
      ++ (pointer (of_ingress_component T)).addresses x.ingress
      ++ string_map.addresses x.service_labels
      ++ string_map.addresses x.service_annotations
      ++ (slice T.additional_port).addresses x.additional_service_ports
      ++ (slice (plain String)).addresses x.cert_sans
      ++ (slice (plain String)).addresses x.dns_service_ips

  unfoldable pub copy_network_component :
      StoredNetworkComponent (memory T) → ℕ → StoredNetworkComponent (memory T) × ℕ
  copy_network_component x n =
      let (load_balancer_config, n1) =
        (pointer (of_load_balancer_config T)).copy_into x.load_balancer_config n in
      let (gateway, n2) = (pointer (of_gateway_component T)).copy_into x.gateway n1 in
      let (ingress, n3) = (pointer (of_ingress_component T)).copy_into x.ingress n2 in
      let (service_labels, n4) = string_map.copy_into x.service_labels n3 in
      let (service_annotations, n5) = string_map.copy_into x.service_annotations n4 in
      let (additional_service_ports, n6) =
        (slice T.additional_port).copy_into x.additional_service_ports n5 in
      let (cert_sans, n7) = (slice (plain String)).copy_into x.cert_sans n6 in
      let (dns_service_ips, n8) = (slice (plain String)).copy_into x.dns_service_ips n7 in
      (
        record x {
          load_balancer_config = load_balancer_config;
          gateway = gateway;
          ingress = ingress;
          service_labels = service_labels;
          service_annotations = service_annotations;
          additional_service_ports = additional_service_ports;
          cert_sans = cert_sans;
          dns_service_ips = dns_service_ips;
        },
        n8,
      )

  abbrev pub of_network_component : Copyable
  of_network_component = record {
    Carrier = StoredNetworkComponent (memory T);
    Contents = StoredNetworkComponent (bare T);
    contents = contents_network_component;
    addresses = addresses_network_component;
    copy_into = copy_network_component;
  }

  abbrev pub deep_copy_network_component :
      Option (Ref (StoredNetworkComponent (memory T)))
      → ℕ
      → Option (Ref (StoredNetworkComponent (memory T))) × ℕ
  deep_copy_network_component = copy_pointer of_network_component

  pub copy_network_component-IsDeep : AreDeep T → IsDeep of_network_component
  unfolding contents_network_component addresses_network_component copy_network_component
  copy_network_component-IsDeep L = record {
    is_copy = λ x n.
        let i1 =
          (pointer-IsDeep (copy_load_balancer_config-IsDeep T L)).is_copy x.load_balancer_config
            n in
        let i2 =
          (pointer-IsDeep (copy_gateway_component-IsDeep T L)).is_copy x.gateway (after i1) in
        let i3 =
          (pointer-IsDeep (copy_ingress_component-IsDeep T L)).is_copy x.ingress (after i2) in
        let i4 = string_map-IsDeep.is_copy x.service_labels (after i3) in
        let i5 = string_map-IsDeep.is_copy x.service_annotations (after i4) in
        let i6 = (slice-IsDeep L.additional_port).is_copy x.additional_service_ports (after i5) in
        let i7 = (slice-IsDeep (plain-IsDeep String)).is_copy x.cert_sans (after i6) in
        let i8 = (slice-IsDeep (plain-IsDeep String)).is_copy x.dns_service_ips (after i7) in
        record {
          same = λ j. record (contents_network_component x) {
            load_balancer_config = i1.same j;
            gateway = i2.same j;
            ingress = i3.same j;
            service_labels = i4.same j;
            service_annotations = i5.same j;
            additional_service_ports = i6.same j;
            cert_sans = i7.same j;
            dns_service_ips = i8.same j;
          };
          addresses =
              i1.addresses & i2.addresses & i3.addresses & i4.addresses & i5.addresses
              & i6.addresses & i7.addresses & i8.addresses;
        };
  }
