-- ===== src/Tests/Deletion.antt =====
-- A deletion that succeeds, with a TenantControlPlane that is there.
use cluster_api_control_plan.Base.{◌≡◌, refl, ◌∷◌, [], some, none, true, contains, lookup}
use cluster_api_control_plan.Objects.{KamajiControlPlane, key_of}
use cluster_api_control_plan.Controller.Finalizer.{ecr_finalizer}
use cluster_api_control_plan.Controller.Resources.{kubeconfig_key}
use cluster_api_control_plan.Controller.Reconcile.{reconcile, finished}
use cluster_api_control_plan.Controller.Reconcile.Progress.{IsFit}
use cluster_api_control_plan.Controller.Reconcile.Progress.Deletion.{
  IsReleased, reconcile-IsReleased,
}
use cluster_api_control_plan.Tests.Fixtures.{trivial, kcp, reference, tenant}
use cluster_api_control_plan.Tests.Memory.{World, sets-IsLawful}
use cluster_api_control_plan.Tests.Progress.{
  referring, servers, fixed, serves, reconciler, hosted, world,
}

abbrev leaving : KamajiControlPlane trivial
leaving = record (referring (some reference)) {
  meta = record (referring (some reference)).meta {
    finalizers = "a" ∷ ecr_finalizer ∷ [];
    deletion_timestamp = some 3;
  };
}

abbrev leaving_world : World
leaving_world = record (world (some reference)) { kcp = leaving; tenant = some tenant }

leaving-IsFit : IsFit servers (fixed (some reference)) leaving
unfolding kubeconfig_key lookup
leaving-IsFit = record {
  has_key = refl;
  has_network = refl;
  has_kubeconfig = refl;
  has_reference = refl;
}

leaving_held : contains ecr_finalizer leaving.meta.finalizers ≡ true
unfolding contains
leaving_held = refl

reconcile-IsReleased_example :
    ((reconcile servers reconciler (key_of kcp.meta) leaving_world).0 ≡ finished)
    × IsReleased servers
        (fixed (some reference))
        (serves (some reference) (some true))
        sets-IsLawful
        reconciler
        hosted
        leaving
        leaving_world
        (reconcile servers reconciler (key_of kcp.meta) leaving_world).1
reconcile-IsReleased_example =
    reconcile-IsReleased servers (fixed (some reference)) (serves (some reference) (some true))
      sets-IsLawful reconciler hosted leaving_world refl leaving-IsFit refl refl
      (record { fits = leaving-IsFit; has_cluster = refl }) refl refl leaving_held
      (λ w i. (
        tt,
        record w { tenant = none },
        refl,
        tt,
        record { fits = i.fits; has_cluster = i.has_cluster },
      ))
