-- ===== src/Tests/Copies.antt =====
-- A deep copy of a KamajiControlPlane with maps, slices and pointers.
use cluster_api_control_plan.Base.{◌≡◌, refl, arith, some, none, [], ◌∷◌, String, true, ◌⊎◌}
use cluster_api_control_plan.Base.Int.{pos}
use cluster_api_control_plan.Copies.{
  Ref, Types, AreDeep, memory, plain, string_map, pointer, plain-IsDeep, string_map-IsDeep,
  addresses_control_plane, addresses_spec, addresses_status, addresses_fields,
  addresses_addons_spec, addresses_core_dns_addon_spec, addresses_control_plane_component,
  addresses_kine_component, addresses_network_component, addresses_gateway_component,
  addresses_deployment_component, StoredControlPlaneComponent, StoredKamajiControlPlaneFields,
}
use cluster_api_control_plan.Copies.Separation.{IsSeparate, AreUsed}
use cluster_api_control_plan.Copies.Objects.{
  control_plane, Pointer, of_kind, deep_copy_object, deep_copy_object-IsSeparate,
}

-- Labels and annotations are maps, and the rest holds no reference.
abbrev simple : Types
simple = record {
  volume_mount = plain String;
  resource_requirements = plain String;
  probe_set = plain String;
  addons_spec = plain String;
  additional_metadata = string_map;
  deployment_strategy = plain String;
  affinity = plain String;
  toleration = plain String;
  topology_spread_constraint = plain String;
  container = plain String;
  volume = plain String;
  additional_port = plain String;
  kubelet_spec = plain String;
  object_meta = string_map;
  cluster_object_meta = string_map;
  list_meta = plain String;
  condition = plain String;
  addon_spec = record { Carrier = String; references = λ x. [] };
  data_store_override = record { Carrier = String; references = λ x. [] };
  admission_controller = record { Carrier = String; references = λ x. [] };
  type_meta = record { Carrier = String; references = λ x. [] };
}

simple-AreDeep : AreDeep simple
simple-AreDeep = record {
  volume_mount = plain-IsDeep String;
  resource_requirements = plain-IsDeep String;
  probe_set = plain-IsDeep String;
  addons_spec = plain-IsDeep String;
  additional_metadata = string_map-IsDeep;
  deployment_strategy = plain-IsDeep String;
  affinity = plain-IsDeep String;
  toleration = plain-IsDeep String;
  topology_spread_constraint = plain-IsDeep String;
  container = plain-IsDeep String;
  volume = plain-IsDeep String;
  additional_port = plain-IsDeep String;
  kubelet_spec = plain-IsDeep String;
  object_meta = string_map-IsDeep;
  cluster_object_meta = string_map-IsDeep;
  list_meta = plain-IsDeep String;
  condition = plain-IsDeep String;
  addon_spec = λ x. refl;
  data_store_override = λ x. refl;
  admission_controller = λ x. refl;
  type_meta = λ x. refl;
}

abbrev component : StoredControlPlaneComponent (memory simple)
component = record {
  extra_volume_mounts = none;
  extra_args = none;
  resources = "";
  container_image_name = "";
  probes = none;
}

abbrev fields : StoredKamajiControlPlaneFields (memory simple)
fields = record {
  data_store_name = "etcd";
  data_store_schema = "";
  data_store_username = "";
  data_store_overrides = none;
  addons = record {
    addons_spec = "";
    core_dns = some (record {
      address = 3;
      target = record {
        addon_spec = some (record { address = 4; target = "" });
        dns_service_ips = none;
      };
    });
  };
  admission_controllers = none;
  container_registry = "";
  controller_manager = component;
  api_server = component;
  scheduler = component;
  kine = record { extra_args = none; resources = "" };
  kubelet = "";
  network = record {
    load_balancer_config = none;
    gateway = some (record {
      address = 5;
      target = record {
        name = "edge";
        namespace = "ns";
        hostname = "";
        section_name = "";
        port = some (record { address = 6; target = pos 443 });
        extra_labels = some (record { address = 7; target = ("a", "b") ∷ [] });
        extra_annotations = none;
      };
    });
    ingress = none;
    service_type = "ClusterIP";
    service_address = "";
    advertise_address = "";
    service_labels = none;
    service_annotations = none;
    additional_service_ports = none;
    cert_sans = some (record { address = 8; target = "kamaji.example" ∷ [] });
    dns_service_ips = none;
  };
  deployment = record {
    node_selector = none;
    runtime_class_name = "";
    additional_metadata = none;
    pod_additional_metadata = none;
    service_account_name = "";
    strategy = "";
    affinity = none;
    tolerations = none;
    topology_spread_constraints = none;
    extra_init_containers = none;
    extra_containers = none;
    extra_volumes = none;
    external_cluster_reference = none;
    probes = none;
  };
}

abbrev original : Pointer simple control_plane
original = some (record {
  address = 1;
  target = record {
    type_meta = "KamajiControlPlane";
    meta = some (record { address = 2; target = ("label", "value") ∷ [] });
    spec = record {
      fields = fields;
      control_plane_endpoint = record { host = "kamaji.example"; port = pos 6443 };
      replicas = some (record { address = 9; target = pos 2 });
      version = "v1.30.0";
    };
    status = record {
      initialization = none;
      ready = true;
      ready_replicas = none;
      replicas = none;
      selector = none;
      available_replicas = none;
      up_to_date_replicas = none;
      external_managed_control_plane = none;
      failure_reason = "";
      failure_message = "";
      version = "v1.30.0";
      conditions = none;
    };
  };
})

-- The addresses 1 to 9 are in use.
original-AreUsed : AreUsed 10 ((pointer (of_kind simple control_plane)).addresses original)
unfolding addresses_control_plane addresses_spec addresses_status addresses_fields
    addresses_addons_spec addresses_core_dns_addon_spec addresses_control_plane_component
    addresses_kine_component addresses_network_component addresses_gateway_component
    addresses_deployment_component
original-AreUsed = ground arith

deep_copy_object-IsSeparate_example :
    ((original ≡ none) × ((deep_copy_object simple control_plane original 10).0 ≡ none))
    ⊎ ((c : Ref (of_kind simple control_plane).Carrier) × ((deep_copy_object simple control_plane
            original 10).0
          ≡ some (control_plane, c))
        × IsSeparate (pointer (of_kind simple control_plane)) original (some c))
deep_copy_object-IsSeparate_example =
    deep_copy_object-IsSeparate simple simple-AreDeep control_plane original 10 original-AreUsed
