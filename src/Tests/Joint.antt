-- ===== src/Tests/Joint.antt =====
-- The passes of the two controllers, one after the other, from an empty store.
use cluster_api_control_plan.Base.{◌≡◌, refl, String, ◌∷◌, [], List, some, arith, lookup}
use cluster_api_control_plan.Errors.{Result, ok}
use cluster_api_control_plan.Objects.{KamajiControlPlane, key_of}
use cluster_api_control_plan.GoNet.{has_char}
use cluster_api_control_plan.ExternalCluster.Names.{kubeconfig_namespace}
use cluster_api_control_plan.ExternalCluster.Store.{new_store}
use cluster_api_control_plan.Controller.Run.{Reconciler}
use cluster_api_control_plan.Controller.Managers.{Process, reconcile_found}
use cluster_api_control_plan.Controller.Managers.Calm.{IsCalm}
use cluster_api_control_plan.Controller.Managers.Success.{IsAnswered}
use cluster_api_control_plan.Controller.Reconcile.{reconcile, finished}
use cluster_api_control_plan.Controller.Reconcile.Progress.Pass.{IsAccomplished}
use cluster_api_control_plan.Controller.Reconcile.Progress.Joint.{IsKept, reconcile_found-reconcile}
use cluster_api_control_plan.Tests.Fixtures.{trivial, kcp, secret, reference}
use cluster_api_control_plan.Tests.Memory.{World}
use cluster_api_control_plan.Tests.Progress.{
  referring, servers, fixed, IsGood, serves, reconciler, attainable, world, referring-IsFit,
  chooses,
}

abbrev answer : String → Result (List (KamajiControlPlane trivial))
answer key = ok (referring (some reference) ∷ [])

abbrev Calm : World → Type 0
Calm w = w.kcp ≡ referring (some reference)

servers-IsCalm : IsCalm servers answer Calm
servers-IsCalm = record {
  listed = λ key w c. ground (arith, c);
  after_list = λ key w c. c;
  after_new = λ config w c. c;
  after_setup = λ m w c. c;
  after_cancel = λ w c. c;
}

servers-IsAnswered : IsAnswered servers answer Calm secret
unfolding has_char
servers-IsAnswered = record {
  is_calm = servers-IsCalm;
  lists = λ key m. refl;
  are_plain = (record { namespace_plain = refl; name_plain = refl; key_plain = refl }, tt);
  are_configs = (refl, tt);
  makes = λ config w c. refl;
  sets_up = λ m w c. refl;
}

-- The worker has not started any manager yet.
abbrev begun : Process servers
begun = record { world = world (some reference); store = new_store; starting = [] }

-- The store is shared.
abbrev sharing : Reconciler servers
sharing = record reconciler { store = (reconcile_found servers secret begun).1.store }

kept : IsKept servers (fixed (some reference)) (IsGood (some reference)) sharing reference secret
unfolding kubeconfig_namespace lookup has_char
kept = record {
  refers = refl;
  gate_open = refl;
  is_confined = λ off. refl;
  is_keyed = record {
    in_namespace = refl;
    has_name = refl;
    are_plain = (record { namespace_plain = refl; name_plain = refl; key_plain = refl }, tt);
    is_plain = record { namespace_plain = refl; name_plain = refl; key_plain = refl };
    has_entry = λ q. ground (arith, q);
  };
  reads_secret = λ w i. (secret, w, refl, refl, i);
  knows_tenants = λ m w i. (tt, w, refl, tt, i);
}

reconcile_found-reconcile_example :
    ((reconcile_found servers secret begun).0 ≡ ok tt)
    × ((reconcile servers sharing (key_of kcp.meta) (world (some reference))).0 ≡ finished)
    × (m : servers.Manager) × IsAccomplished servers
        (fixed (some reference))
        (serves (some reference) (some m))
        sharing
        (attainable (some reference) sharing)
        (referring (some reference))
        (world (some reference))
        (reconcile servers sharing (key_of kcp.meta) (world (some reference))).1
reconcile_found-reconcile_example =
    reconcile_found-reconcile servers (fixed (some reference)) (IsGood (some reference)) sharing
      reference secret begun servers-IsAnswered refl refl refl kept
      (λ m. serves (some reference) (some m)) (attainable (some reference) sharing)
      (world (some reference)) refl (referring-IsFit (some reference)) refl refl
      (record { fits = referring-IsFit (some reference); has_cluster = refl }) refl refl
      (chooses (some reference))
