-- ===== src/Controller/Managers/System.antt =====
-- The worker of controllers/externalclusterreference_controller.go and the goroutines that it
-- starts, step by step: each call of the store is one step, since its methods hold the mutex. There
-- is one worker, since `SetupWithManager` leaves the number of concurrent reconciliations at its
-- default. The controller of KamajiControlPlanes only calls `Get`.
pub mod Invariant
pub mod Provenance
pub mod Simulation
use cluster_api_control_plan.Base.{ℕ, String, ◌≡◌, Bool, false, List, [], ◌∷◌, ◌++◌}
use cluster_api_control_plan.ExternalCluster.Store.{Store, new_store, get, stop, add}

module _ {ℓ} where
  -- Where the worker is: between the turns of its loops; in a turn of the second loop, after a `Get`
  -- that did not find the wanted version, after the `Stop`, or after the start of the goroutine.
  pub data Pc (M : Type ℓ) : Type ℓ where
    idle : Pc M
    outdated : String → String → Pc M
    cleared : String → String → Pc M
    launched : String → String → M → ℕ → Pc M

  -- `running` are the goroutines in which `mgr.Start` has not returned, `started` all there ever were.
  pub record System (M : Type ℓ) : Type ℓ where
    pub store : Store M
    pub pc : Pc M
    pub running : List (String × M × ℕ)
    pub started : List (String × M × ℕ)

  module _ {M : Type ℓ} where
    abbrev pub initial : System M
    initial = record { store = new_store; pc = idle; running = []; started = [] }

    pub data Step : System M → System M → Type ℓ where
      -- `Stop` of a key that nobody refers to
      stop_unused :
          {s : System M} (key : String)
          → s.pc ≡ idle
          → Step s (record s { store = (stop key s.store).1 })
      -- `Get` of a key whose manager does not run with the wanted version
      look :
          {s : System M} (key rv : String)
          → s.pc ≡ idle
          → (get key rv s.store).1 ≡ false
          → Step s (record s { pc = outdated key rv })
      -- `Stop` of that key
      clear :
          {s : System M} {key rv : String}
          → s.pc ≡ outdated key rv
          → Step s (record s { store = (stop key s.store).1; pc = cleared key rv })
      -- A return because of the kubeconfig, the manager or its controller
      give_up :
          {s : System M} {key rv : String} → s.pc ≡ cleared key rv → Step s (record s { pc = idle })
      -- `go r.startManager(mgrCtx, mgr, key)`
      launch :
          {s : System M} {key rv : String} (m : M) (c : ℕ)
          → s.pc ≡ cleared key rv
          → Step s (record s {
            pc = launched key rv m c;
            running = (key, m, c) ∷ s.running;
            started = (key, m, c) ∷ s.started;
          })
      -- `Add`, whose answer is not looked at
      enter :
          {s : System M} {key rv : String} {m : M} {c : ℕ}
          → s.pc ≡ launched key rv m c
          → Step s (record s { store = (add key rv m c s.store).1; pc = idle })
      -- `mgr.Start` returns an error, and `Stop` is called for the name
      fail :
          {s : System M} (before after : List (String × M × ℕ)) (name : String) (m : M) (c : ℕ)
          → s.running ≡ before ++ (name, m, c) ∷ after
          → Step s (record s { store = (stop name s.store).1; running = before ++ after })
      -- `mgr.Start` returns nil
      finish :
          {s : System M} (before after : List (String × M × ℕ)) (name : String) (m : M) (c : ℕ)
          → s.running ≡ before ++ (name, m, c) ∷ after
          → Step s (record s { running = before ++ after })

    -- Any number of steps, in any order that the guards allow.
    pub data Steps : System M → System M → Type ℓ where
      here : {s : System M} → Steps s s
      next : {s t u : System M} → Step s t → Steps t u → Steps s u
