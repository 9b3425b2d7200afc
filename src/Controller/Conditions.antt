-- ===== src/Controller/Conditions.antt =====
-- controllers/conditions.go: `TrackConditionType`, which reports the outcome of a step in the
-- condition of its type. `FindStatusCondition` points into the slice there, and the fields that are
-- assigned through the pointer are those that `SetStatusCondition` then writes: here the condition
-- is a copy, and `SetStatusCondition` writes it.
pub mod Laws
use cluster_api_control_plan.Base.{
  ℕ, String, Bool, true, false, Option, none, some, List, if◌then◌else◌,
}
use cluster_api_control_plan.Errors.{Error, Result, ok, err, is_enqueue_back, error_text}
use cluster_api_control_plan.Objects.{
  Foreign, Condition, ConditionStatus, status_true, status_false, status_unknown, status_unset,
}
use cluster_api_control_plan.Kube.{Kube}
use cluster_api_control_plan.Controller.Run.{Run, Action}

-- The names of api/v1alpha2/kamajicontrolplane_conditions.go.
abbrev pub found_external_cluster_reference : String
found_external_cluster_reference = "FoundExternalReferenceClient"

abbrev pub tenant_control_plane_created : String
tenant_control_plane_created = "TenantControlPlaneCreated"

abbrev pub tenant_control_plane_address_ready : String
tenant_control_plane_address_ready = "TenantControlPlaneAddressReady"

abbrev pub control_plane_endpoint_patched : String
control_plane_endpoint_patched = "ControlPlaneEndpointPatched"

abbrev pub infrastructure_cluster_patched : String
infrastructure_cluster_patched = "InfrastructureClusterPatched"

abbrev pub kamaji_control_plane_initialized : String
kamaji_control_plane_initialized = "KamajiControlPlaneIsInitialized"

abbrev pub kamaji_control_plane_ready : String
kamaji_control_plane_ready = "KamajiControlPlaneIsReady"

abbrev pub kubeadm_resources_created : String
kubeadm_resources_created = "KubeadmResourcesCreated"

abbrev pub available : String
available = "Available"

abbrev pub paused : String
paused = "Paused"

abbrev pub is_false : ConditionStatus → Bool
is_false status_false = true
is_false _ = false

abbrev pub is_true : ConditionStatus → Bool
is_true status_true = true
is_true _ = false

-- `&metav1.Condition{Type: t}`
abbrev pub new_condition : String → Condition
new_condition t = record {
  kind = t;
  status = status_unset;
  observed_generation = 0;
  last_transition_time = 0;
  reason = "";
  message = "";
}

abbrev found_or_new : String → Option Condition → Condition
found_or_new t none = new_condition t
found_or_new t (some c) = c

module _ {F : Foreign} (K : Kube F) where
  -- The time of transition is now, if the status changes.
  stamp : Bool → Condition → K.World → Condition × K.World
  stamp unchanged c w =
      let (t, w1) = K.now w in
      if unchanged then (c, w) else (record c { last_transition_time = t }, w1)

  -- What is written into the condition when the step has ended.
  outcome : {A : Type 0} → Result A → Condition → K.World → Condition × K.World
  unfolding stamp
  outcome (err e) c w =
      let (c1, w1) = stamp (is_false c.status) c w in
      (
        record c1 {
          reason = if is_enqueue_back e then "Failed" else "Pending";
          status = status_false;
          message = error_text e;
        },
        w1,
      )
  outcome (ok a) c w =
      let (c1, w1) = stamp (is_true c.status) c w in
      (record c1 { reason = "Succeeded"; status = status_true; message = "" }, w1)

  unfoldable pub track_condition_type : {A : Type 0} → String → ℕ → Action K A → Action K A
  unfolding outcome
  track_condition_type t generation fn run =
      let c = record (found_or_new t (K.find_status_condition run.conditions t)) {
        observed_generation = generation;
      } in
      let (r, run1) = fn run in
      let (c1, w1) = outcome r c run1.world in
      let (now, w2) = K.now w1 in
      (r, record run1 { world = w2; conditions = K.set_status_condition now run1.conditions c1 })
