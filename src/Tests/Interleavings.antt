-- ===== src/Tests/Interleavings.antt =====
-- Runs of the worker and of the goroutines of managers.
use cluster_api_control_plan.Base.{
  insert, erase, NodupKeys, ◌+◌, String, ◌≡◌, refl, true, some, [], ◌∷◌, lookup,
}
use cluster_api_control_plan.Objects.{ObjectKey}
use cluster_api_control_plan.ExternalCluster.Store.{get, stop, add}
use cluster_api_control_plan.ExternalCluster.Store.Conservation.{count, live}
use cluster_api_control_plan.Controller.Managers.{reconcile_secret}
use cluster_api_control_plan.Controller.Managers.System.{
  idle, launched, System, initial, look, clear, launch, enter, fail, Steps, here, next,
}
use cluster_api_control_plan.Controller.Managers.System.Invariant.{
  in_hand, cancels, Steps-conserved, enter-accepted,
}
use cluster_api_control_plan.Controller.Managers.System.Simulation.{system, Steps-reconcile_secret}
use cluster_api_control_plan.Base.{ℕ}
use cluster_api_control_plan.Controller.Managers.System.Provenance.{WasStarted, get-WasStarted}
use cluster_api_control_plan.Tests.Memory.{memory}
use cluster_api_control_plan.Tests.Managers.{begun}

abbrev request : ObjectKey
request = record { namespace = "ns"; name = "kc" }

Steps-reconcile_secret_example :
    Steps (system memory begun) (system memory (reconcile_secret memory request begun).1)
Steps-reconcile_secret_example = Steps-reconcile_secret memory request begun

-- The goroutine of key "k" runs, and the manager is not yet in the store.
abbrev started : System String
started = record {
  store = record { store = []; stopped = [] };
  pc = launched "k" "7" "old" 9;
  running = ("k", "old", 9) ∷ [];
  started = ("k", "old", 9) ∷ [];
}

reached : Steps initial started
unfolding get stop lookup
reached = next (look "k" "7" refl refl) (next (clear refl) (next (launch "old" 9 refl) here))

abbrev in_store : System String
in_store = record started { store = (add "k" "7" "old" 9 started.store).1; pc = idle }

added : Steps initial in_store
unfolding get stop lookup
added =
    next (look "k" "7" refl refl)
      (next (clear refl) (next (launch "old" 9 refl) (next (enter refl) here)))

enter-accepted_example :
    ((add "k" "7" "old" 9 started.store).0 ≡ true)
    × (get "k" "7" (add "k" "7" "old" 9 started.store).1 ≡ (some "old", true))
enter-accepted_example = enter-accepted reached refl

-- The manager was restarted for version 8, then the goroutine of the old one returns an error: the
-- new manager, of stop function 10, is stopped.
abbrev after_restart : System String
after_restart = record {
  store = record { store = []; stopped = 10 ∷ 9 ∷ [] };
  pc = idle;
  running = ("k", "new", 10) ∷ [];
  started = ("k", "new", 10) ∷ ("k", "old", 9) ∷ [];
}

late_error : Steps initial after_restart
unfolding get stop add lookup insert erase
late_error = next (look "k" "7" refl refl) (
    next (clear refl) (
      next (launch "old" 9 refl) (
        next (enter refl) (
          next (look "k" "8" refl refl) (
            next (clear refl) (
              next (launch "new" 10 refl) (
                next (enter refl)
                  (next (fail (("k", "new", 10) ∷ []) [] "k" "old" 9 refl) here))))))))

Steps-conserved_example :
    (count 10 after_restart.store.stopped
        + live 10 after_restart.store.store
        + in_hand 10 after_restart.pc
      ≡ count 10 (cancels after_restart.started))
    × NodupKeys after_restart.store.store
Steps-conserved_example = Steps-conserved 10 late_error

-- The manager is in the store, found there with an older version than is asked for.
get-WasStarted_example : (c : ℕ) × WasStarted "k" "old" c started.started
unfolding get add insert lookup
get-WasStarted_example = get-WasStarted "8" added refl
