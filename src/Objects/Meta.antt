-- ===== src/Objects/Meta.antt =====
-- `metav1.ObjectMeta`, `metav1.Condition` and `capiv1beta2.APIEndpoint`.
use cluster_api_control_plan.Base.{ℕ, String, Option, List, GoMap}
use cluster_api_control_plan.Base.Int.{ℤ}

pub record OwnerReference : Type 0 where
  pub kind : String
  pub name : String
  pub uid : String

-- `deletion_timestamp` is `none` for nil.
pub record ObjectMeta : Type 0 where
  pub name : String
  pub namespace : String
  pub uid : String
  pub resource_version : String
  pub generation : ℕ
  pub labels : GoMap String
  pub annotations : GoMap String
  pub owner_references : List OwnerReference
  pub finalizers : List String
  pub deletion_timestamp : Option ℕ

-- client.ObjectKey and types.NamespacedName
pub record ObjectKey : Type 0 where
  pub namespace : String
  pub name : String

-- client.ObjectKeyFromObject
abbrev pub key_of : ObjectMeta → ObjectKey
key_of m = record { namespace = m.namespace; name = m.name }

-- `status_unset` is the empty text of a new condition.
pub data ConditionStatus : Type 0 where
  status_true status_false status_unknown status_unset : ConditionStatus

-- The zero time is 0.
pub record Condition : Type 0 where
  pub kind : String
  pub status : ConditionStatus
  pub observed_generation : ℕ
  pub last_transition_time : ℕ
  pub reason : String
  pub message : String

pub record ApiEndpoint : Type 0 where
  pub host : String
  pub port : ℤ
