-- ===== src/Objects/ClusterApi.antt =====
-- `capiv1beta2.Cluster` and `corev1.Secret`, as far as the program names their fields.
use cluster_api_control_plan.Base.{String, Bool, Option, List, GoMap}
use cluster_api_control_plan.Base.Int.{ℤ}
use cluster_api_control_plan.Objects.Meta.{ObjectMeta, ApiEndpoint}

-- capiv1beta2.ContractVersionedObjectReference
pub record ObjectReference : Type 0 where
  pub api_group : String
  pub kind : String
  pub name : String

pub record ClusterNetwork : Type 0 where
  pub api_server_port : ℤ
  pub services_cidr_blocks : List String
  pub pods_cidr_blocks : List String
  pub service_domain : String

pub record Cluster : Type 0 where
  pub meta : ObjectMeta
  pub cluster_network : ClusterNetwork
  pub infrastructure_ref : ObjectReference
  pub control_plane_endpoint : ApiEndpoint
  pub infrastructure_provisioned : Option Bool

-- A []byte; `none` is nil.
abbrev pub Bytes : Type 0
Bytes = Option String

pub record Secret : Type 0 where
  pub meta : ObjectMeta
  pub contents : GoMap Bytes
  pub kind : String
