-- ===== src/Tests/Passes.antt =====
-- Passes over the Secret of the fixtures, one after the other.
use cluster_api_control_plan.Base.{
  ◌≡◌, refl, String, ◌∷◌, [], List, true, false, some, lookup, inl, arith,
}
use cluster_api_control_plan.Errors.{err, api_error, not_found, Result, ok}
use cluster_api_control_plan.Objects.{KamajiControlPlane, ObjectKey}
use cluster_api_control_plan.GoNet.{split, has_char}
use cluster_api_control_plan.ExternalCluster.Names.{
  generate_key_name_from_secret, kubeconfig_namespace,
}
use cluster_api_control_plan.ExternalCluster.Store.{get, add, stop}
use cluster_api_control_plan.Controller.Run.{Reconciler}
use cluster_api_control_plan.Controller.ExternalReference.{extract_remote_client}
use cluster_api_control_plan.Controller.Managers.{
  make_manager, load_key, load_keys, referenced_keys, reconcile_found, reconcile_secret,
}
use cluster_api_control_plan.Controller.Managers.Frame.{reconcile_secret-frame}
use cluster_api_control_plan.Controller.Managers.Calm.{IsCalm}
use cluster_api_control_plan.Controller.Managers.Success.{IsAnswered}
use cluster_api_control_plan.Controller.Managers.Stability.{reconcile_found-stable}
use cluster_api_control_plan.Controller.Managers.Service.{IsReferenced, reconcile_found-serves}
use cluster_api_control_plan.Tests.Fixtures.{trivial, kcp, secret, reference}
use cluster_api_control_plan.Tests.Memory.{World, memory}
use cluster_api_control_plan.Tests.Managers.{world, begun, running, loaded}

-- The Secret is gone, and its manager stays.
abbrev gone : ObjectKey
gone = record { namespace = "ns"; name = "gone" }

unread :
    (memory.get_secret memory.local gone running.world).0 ≡ err (api_error not_found "not found")
unfolding reconcile_found referenced_keys generate_key_name_from_secret load_keys load_key get stop
    add make_manager split lookup
unread = refl

reconcile_secret-frame_example :
    lookup "ns/kc/conf" (reconcile_secret memory gone running).1.store.store
    ≡ lookup "ns/kc/conf" running.store.store
reconcile_secret-frame_example =
    reconcile_secret-frame memory gone "ns/kc/conf" running (λ s q. ground (arith, unread, q))

abbrev answer : String → Result (List (KamajiControlPlane trivial))
answer key = ok (kcp ∷ [])

abbrev Calm : World → Type 0
Calm w = w.kcp ≡ kcp

memory-IsCalm : IsCalm memory answer Calm
memory-IsCalm = record {
  listed = λ key w c. ground (arith, c);
  after_list = λ key w c. c;
  after_new = λ config w c. c;
  after_setup = λ m w c. c;
  after_cancel = λ w c. c;
}

reconcile_found-stable_example :
    ((reconcile_found memory secret running).0 ≡ ok tt)
    × ((reconcile_found memory secret running).1.store ≡ running.store)
    × ((reconcile_found memory secret running).1.starting ≡ running.starting)
reconcile_found-stable_example =
    reconcile_found-stable memory memory-IsCalm secret begun refl loaded

abbrev reconciler : Reconciler memory
reconciler = record {
  enabled = λ gate. true;
  dynamic_infrastructure_clusters = λ kind. false;
  store = running.store;
}

referenced : IsReferenced memory reconciler kcp reference secret world world
unfolding kubeconfig_namespace lookup has_char
referenced = record {
  refers = refl;
  gate_open = refl;
  is_permitted = inl refl;
  is_read = refl;
  is_keyed = record {
    in_namespace = refl;
    has_name = refl;
    are_plain = (record { namespace_plain = refl; name_plain = refl; key_plain = refl }, tt);
    is_plain = record { namespace_plain = refl; name_plain = refl; key_plain = refl };
    has_entry = λ q. ground (arith, q);
  };
}

memory-IsAnswered : IsAnswered memory answer Calm secret
unfolding has_char
memory-IsAnswered = record {
  is_calm = memory-IsCalm;
  lists = λ key m. refl;
  are_plain = (record { namespace_plain = refl; name_plain = refl; key_plain = refl }, tt);
  are_configs = (refl, tt);
  makes = λ config w c. refl;
  sets_up = λ m w c. refl;
}

reconcile_found-serves_example :
    ((reconcile_found memory secret begun).0 ≡ ok tt)
    × (m : memory.Manager) × (extract_remote_client memory reconciler kcp world
        ≡ (ok (memory.get_client m), world))
    × (get "ns/kc/conf" "7" reconciler.store ≡ (some m, true))
unfolding kubeconfig_namespace
reconcile_found-serves_example =
    reconcile_found-serves memory reconciler kcp reference secret begun memory-IsAnswered refl refl
      refl referenced (λ m. refl)
