-- ===== src/Controller/Reconcile/Progress/Report.antt =====
-- The last step reports the object as ready.
use cluster_api_control_plan.Base.{
  ◌≡◌, ℕ, eq_refl, if◌then◌else◌, ap, arith, List, Option, true, some,
}
use cluster_api_control_plan.Objects.{
  Foreign, Cluster, OwnerReference, version_ready, KamajiControlPlaneStatus, Condition, status_true,
  status_false,
}
use cluster_api_control_plan.Kube.{Kube}
use cluster_api_control_plan.Kube.Laws.{IsLawfulConditions, timeless?}
use cluster_api_control_plan.Controller.Run.{Run}
use cluster_api_control_plan.Controller.Conditions.{kamaji_control_plane_ready, available}
use cluster_api_control_plan.Controller.Reconcile.Steps.{
  ready_step, report_ready, with_ready, set_available,
}
use cluster_api_control_plan.Controller.Reconcile.Progress.{Fixed, IsFit, IsServed}
use cluster_api_control_plan.Controller.Reconcile.Progress.Chain.{
  Proceeds, Succeeds, Succeeds-track,
}
use cluster_api_control_plan.Controller.Reconcile.Progress.Updates.{status-Succeeds}
use cluster_api_control_plan.Controller.Reconcile.Progress.Steps.{Healthy}

module _ {F : Foreign} (K : Kube F) (a : Fixed F) {Good : K.World → Type 0}
    {IsFree : List OwnerReference → Type 0} {cluster : Cluster} {remote : Option K.Client}
    (v : IsServed K a Good remote IsFree cluster) where
  report_ready-Succeeds :
      (run : Run K)
      → Healthy K a v run
      → Succeeds K
          (report_ready K version_ready)
          run
          (λ _ run'. Good run'.world × (IsFit K a run'.kcp × (run'.kcp.status.ready ≡ true)))
  unfolding report_ready
  report_ready-Succeeds run (good, i) =
      let (x, run', e, (good', (i', (old, q)))) =
        status-Succeeds K a v (with_ready K version_ready) run good i in
      let ready : run'.kcp.status.ready ≡ true = ap (λ (s : KamajiControlPlaneStatus). s.ready) q in
      (tt, run', ground (arith, e, ready), (good', (i', ready)))

  -- The condition that shows the object as available.
  abbrev pub is_available : ℕ → Condition
  is_available generation = record {
    kind = available;
    status = status_true;
    observed_generation = generation;
    last_transition_time = 0;
    reason = "Available";
    message = "";
  }

  abbrev pub IsReported : Run K → Type 0
  IsReported run =
      (run.kcp.status.ready ≡ true)
      × (timeless? (K.find_status_condition run.conditions available)
          ≡ some (is_available run.kcp.meta.generation))

  pub ready-Proceeds :
      IsLawfulConditions K.find_status_condition K.set_status_condition K.remove_status_condition
      → (run : Run K) → Healthy K a v run
      → Proceeds K (ready_step K version_ready) run (λ _ run'. IsReported run' × Healthy K a v run')
  unfolding ready_step set_available
  ready-Proceeds L run (good, i) =
      let assigned = (status-Succeeds K a v (with_ready K version_ready) run good i).2 in
      let (x, run1, e, (good1, (i1, ready))) =
        Succeeds-track K Good v.ticks kamaji_control_plane_ready run.kcp.meta.generation
          (report_ready K version_ready) {run = run}
          (λ _ kcp. IsFit K a kcp × (kcp.status.ready ≡ true))
          (report_ready-Succeeds run (good, i)) in
      let run2 = set_available K run1 in
      let c : Condition = record (is_available run1.kcp.meta.generation) {
        status = if run1.kcp.status.ready then status_true else status_false;
        reason = if run1.kcp.status.ready then "Available" else "NotAvailable";
      } in
      let available_now : timeless? (K.find_status_condition run2.conditions available)
          ≡ some (is_available run1.kcp.meta.generation) =
        ground (
          arith,
          ready,
          L.find-set (K.now run1.world).0 run1.conditions c available,
          eq_refl available,
        ) in
      (
        tt,
        run2,
        ground (arith, assigned, e),
        ((ready, available_now), (v.ticks run1.world good1, i1)),
      )
