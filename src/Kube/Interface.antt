-- ===== src/Kube/Interface.antt =====
-- What the controllers use of Kubernetes, controller-runtime, Cluster API and Kamaji: the API
-- servers, the retry loop, the patch helper, status conditions, owner references, untyped objects.
-- None of it is in the repository, so it is a record that the models take as a parameter. An
-- operation on a server takes the state of the world and returns the next one: what others do in
-- between belongs to that step.
use cluster_api_control_plan.Base.{ℕ, String, Bool, Option, List, Entries}
use cluster_api_control_plan.Base.Int.{ℤ}
use cluster_api_control_plan.Errors.{Result}
use cluster_api_control_plan.Objects.{
  Foreign, ObjectMeta, ObjectKey, Condition, KamajiControlPlane, TenantControlPlane, Cluster,
  Secret, Bytes, VersionStatus, ObjectReference,
}

-- The values that the program puts into untyped objects.
pub data Nested : Type 0 where
  text : String → Nested
  number : ℤ → Nested
  flag : Bool → Nested

pub record Kube (F : Foreign) : Type 1 where
  -- The state of everything outside the process, the clock included.
  pub World : Type 0
  -- metav1.Now()
  pub now : World → ℕ × World
  -- A client.Client; `local` is the one of the management cluster.
  pub Client : Type 0
  pub local : Client
  pub get_kcp : ObjectKey → World → Result (KamajiControlPlane F) × World
  -- An update returns the object as the server answers it.
  pub update_kcp : KamajiControlPlane F → World → Result (KamajiControlPlane F) × World
  pub update_kcp_status : KamajiControlPlane F → World → Result (KamajiControlPlane F) × World
  -- client.List by a field index
  pub list_kcps : String → String → World → Result (List (KamajiControlPlane F)) × World
  pub list_secrets : String → String → World → Result (List Secret) × World
  pub get_cluster : ObjectKey → World → Result Cluster × World
  pub get_secret : Client → ObjectKey → World → Result Secret × World
  pub get_tenant : Client → ObjectKey → World → Result (TenantControlPlane F) × World
  pub delete_tenant : Client → ObjectKey → World → Result (Unit {0}) × World
  -- retry.RetryOnConflict(retry.DefaultRetry, f), for an f that works on variables of type S
  pub retry_on_conflict : (S : Type 0) → (S → Result (Unit {0}) × S) → S → Result (Unit {0}) × S
  -- `&kamajiv1alpha1.TenantControlPlane{}`
  pub zero_tenant : TenantControlPlane F
  -- controllerutil.CreateOrUpdate, for an f that works on the object and on variables of type S
  pub create_or_update_tenant :
      (S : Type 0)
      → Client
      → (TenantControlPlane F × S → Result (Unit {0}) × (TenantControlPlane F × S))
      → TenantControlPlane F × S
      → World
      → Result (Unit {0}) × (TenantControlPlane F × S) × World
  pub create_or_update_secret :
      (S : Type 0)
      → Client
      → (Secret × S → Result (Unit {0}) × (Secret × S))
      → Secret × S
      → World
      → Result (Unit {0}) × (Secret × S) × World
  -- controllerutil.SetControllerReference, on the metadata of the owned object
  pub set_controller_reference : KamajiControlPlane F → Client → ObjectMeta → Result ObjectMeta
  -- meta.FindStatusCondition; meta.SetStatusCondition at a time; meta.RemoveStatusCondition
  pub find_status_condition : List Condition → String → Option Condition
  pub set_status_condition : ℕ → List Condition → Condition → List Condition
  pub remove_status_condition : List Condition → String → List Condition
  -- annotations.IsPaused
  pub is_paused : Cluster → KamajiControlPlane F → Bool
  -- ContractVersionedObjectReference.IsDefined
  pub is_defined : ObjectReference → Bool
  -- meta.RESTMapper.RESTMapping for a group and a kind, then client.Get of the untyped object
  pub GroupVersionKind : Type 0
  pub rest_mapping : String → String → World → Result GroupVersionKind × World
  pub Unstructured : Type 0
  pub get_unstructured : GroupVersionKind → ObjectKey → World → Result Unstructured × World
  pub get_kind : Unstructured → String
  -- unstructured.NestedString, NestedInt64, SetNestedMap and SetNestedField
  pub nested_string : Unstructured → List String → Result String
  pub nested_int64 : Unstructured → List String → Result ℤ
  pub set_nested_map : Unstructured → Entries Nested → List String → Result Unstructured
  pub set_nested_field : Unstructured → Nested → List String → Result Unstructured
  -- patch.NewHelper and Helper.Patch
  pub Helper : Type 0
  pub new_helper : Unstructured → Result Helper
  pub patch : Helper → Unstructured → World → Result (Unit {0}) × World
  -- A ctrl.Manager, its client, and whether its RESTMapper knows tenantcontrolplanes
  pub Manager : Type 0
  pub get_client : Manager → Client
  -- clientcmd.RESTConfigFromKubeConfig, ctrl.NewManager, builder.Complete of a controller for
  -- objects of a kind, whose name may be one that is taken or not, and the identity of a new cancel
  -- function
  pub Config : Type 0
  pub rest_config : Bytes → Result Config
  pub new_manager : Config → World → Result Manager × World
  pub complete : Manager → String → Bool → World → Result (Unit {0}) × World
  pub with_cancel : World → ℕ × World
  pub kind_for_tenants : Manager → World → Result (Unit {0}) × World
  -- sets.Set[string]
  pub StringSet : Type 0
  pub new_set : List String → StringSet
  pub set_has : StringSet → String → Bool
  pub set_insert : StringSet → String → StringSet
  pub set_delete : StringSet → String → StringSet
  pub unsorted_list : StringSet → List String
  -- Constants of other packages
  pub kubeconfig_secret_key_annotation : String
  pub last_applied_config_annotation : String
  pub cluster_name_label : String
  pub cluster_secret_type : String
  pub tls_cert_key : String
  pub tls_private_key_key : String
  pub version_text : VersionStatus → String
