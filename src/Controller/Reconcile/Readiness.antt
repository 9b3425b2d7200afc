-- ===== src/Controller/Reconcile/Readiness.antt =====
-- The last step of `Reconcile`.
use cluster_api_control_plan.Base.{◌≡◌, ◌∙◌, false, some, arith, inl, inr}
use cluster_api_control_plan.Errors.{Error, err, is_enqueue_back, Result-cases}
use cluster_api_control_plan.Objects.{Foreign, KamajiControlPlane, VersionStatus}
use cluster_api_control_plan.Kube.{Kube}
use cluster_api_control_plan.Kube.Laws.{IsLawfulConditions, timeless?}
use cluster_api_control_plan.Controller.Run.{
  status_attempt, Run, update_kamaji_control_plane_status,
}
use cluster_api_control_plan.Controller.Conditions.{
  kamaji_control_plane_ready, track_condition_type,
}
use cluster_api_control_plan.Controller.Conditions.Laws.{report, find-track}
use cluster_api_control_plan.Controller.Reconcile.Chain.{failed, on_error}
use cluster_api_control_plan.Controller.Reconcile.Steps.{
  with_ready, report_ready, set_available, ready_step,
}

module _ {F : Foreign} (K : Kube F) where
  -- An error of the update is never one that asks to be enqueued back.
  back-update :
      (v : VersionStatus) (run : Run K) (e : Error)
      → (update_kamaji_control_plane_status K (with_ready K v) run).0 ≡ err e
      → is_enqueue_back e ≡ false
  unfolding update_kamaji_control_plane_status is_enqueue_back
  back-update v run e h =
      elim (Result-cases
        (K.retry_on_conflict (KamajiControlPlane F × K.World) (status_attempt K (with_ready K v))
          (run.kcp, run.world)).0) [ inl (u, q) ↦ ground arith | inr (e1, q) ↦ ground arith ]

  -- What is found of another condition when the object's availability has been set.
  find-set_available :
      IsLawfulConditions K.find_status_condition K.set_status_condition K.remove_status_condition
      → (run : Run K)
      → timeless?
          (K.find_status_condition (set_available K run).conditions kamaji_control_plane_ready)
        ≡ timeless? (K.find_status_condition run.conditions kamaji_control_plane_ready)
  unfolding set_available
  find-set_available L run =
      L.find-set (K.now run.world).0 run.conditions _ kamaji_control_plane_ready

  -- The last step goes on exactly if the server accepts the update, whether the answer is that the
  -- object is ready or not, and fails if it does not: it never asks to be enqueued back. In each of
  -- the three cases, the condition of its type reports what the closure returned.
  pub ready_step-report :
      IsLawfulConditions K.find_status_condition K.set_status_condition K.remove_status_condition
      → (v : VersionStatus) (run : Run K)
      → ((ready_step K v run).0
          ≡ on_error failed (update_kamaji_control_plane_status K (with_ready K v) run).0)
        × (timeless?
              (K.find_status_condition (ready_step K v run).1.conditions kamaji_control_plane_ready)
            ≡ some (
                report kamaji_control_plane_ready run.kcp.meta.generation (report_ready K v run).0))
  unfolding ready_step
  ready_step-report L v run =
      let t = kamaji_control_plane_ready in
      let g = run.kcp.meta.generation in
      let run1 = (track_condition_type K t g (report_ready K v) run).1 in
      (
        elim (Result-cases (update_kamaji_control_plane_status K (with_ready K v) run).0) [
          | inl (u, q) ↦ ground arith
          | inr (e, q) ↦ ground (arith, back-update v run e q)
        ],
        find-set_available L run1 ∙ find-track K L t g (report_ready K v) run t,
      )
