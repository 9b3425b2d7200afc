-- ===== src/Controller/Managers/System/Invariant.antt =====
-- What holds in every interleaving of the worker with the goroutines.
use cluster_api_control_plan.Base.{
  ◌⊎◌, inl, inr, eq_refl, NodupKeys, ℕ, ◌+◌, String, ◌≡◌, refl, true, Option, none, some, List,
  ◌++◌, lookup, map, arith, if◌then◌else◌, nat_eq,
}
use cluster_api_control_plan.ExternalCluster.Store.{Store, get, stop, add}
use cluster_api_control_plan.ExternalCluster.Store.Laws.{stop_call, add_call, step}
use cluster_api_control_plan.ExternalCluster.Store.Conservation.{
  count, live, accepted, step-NodupKeys, step-conserves,
}
use cluster_api_control_plan.Controller.Managers.Loading.{lookup-stop, lookup-add}
use cluster_api_control_plan.Controller.Managers.System.{
  Pc, idle, outdated, cleared, launched, System, initial, Step, stop_unused, look, clear, give_up,
  launch, enter, fail, finish, Steps, here, next,
}

module _ {ℓ} {M : Type ℓ} where
  -- The key that the worker has cleared and not yet added.
  abbrev cleared_key : Pc M → Option String
  cleared_key idle = none
  cleared_key (outdated key rv) = none
  cleared_key (cleared key rv) = some key
  cleared_key (launched key rv m c) = some key

  -- The stop function that only the worker knows.
  abbrev pub in_hand : ℕ → Pc M → ℕ
  in_hand n (launched key rv m c) = if nat_eq c n then 1 else 0
  in_hand n _ = 0

  abbrev pub cancels : List (String × M × ℕ) → List ℕ
  cancels = map (λ (key, m, c). c)

  pub record IsSound (s : System M) : Type ℓ where
    pub one_each : NodupKeys s.store.store
    pub is_clear : (key : String) → cleared_key s.pc ≡ some key → lookup key s.store.store ≡ none
    pub conserved :
        (n : ℕ)
        → count n s.store.stopped + live n s.store.store + in_hand n s.pc
          ≡ count n (cancels s.started)

  initial-IsSound : IsSound initial
  unfolding lookup
  initial-IsSound = record { one_each = tt; is_clear = λ key q. refl; conserved = λ n. refl }

  stop-conserves :
      (n : ℕ) (name : String) (s : Store M)
      → NodupKeys s.store
      → count n (stop name s).1.stopped + live n (stop name s).1.store
        ≡ count n s.stopped + live n s.store
  unfolding step accepted
  stop-conserves n name s u = ground (arith, step-conserves n (stop_call name) s u)

  stop-NodupKeys :
      (name : String) (s : Store M) → NodupKeys s.store → NodupKeys (stop name s).1.store
  unfolding step
  stop-NodupKeys name s u = step-NodupKeys (stop_call name) s u

  stopped-IsSound :
      (name : String) (s : System M) (pc : Pc M) (running : List (String × M × ℕ))
      → IsSound s
      → ((n : ℕ) → in_hand n pc ≡ in_hand n s.pc)
      → ((key : String) → cleared_key pc ≡ some key → (cleared_key s.pc ≡ some key) ⊎ (name ≡ key))
      → IsSound (record {
        store = (stop name s.store).1;
        pc = pc;
        running = running;
        started = s.started;
      })
  stopped-IsSound name s pc running i hand freed = record {
    one_each = stop-NodupKeys name s.store i.one_each;
    is_clear = λ key q. elim (freed key q) [
      | inl old ↦ ground (arith, lookup-stop name key s.store, i.is_clear key old)
      | inr new ↦ ground (arith, lookup-stop name key s.store, new, eq_refl key)
    ];
    conserved =
        λ n. ground (arith, stop-conserves n name s.store i.one_each, hand n, i.conserved n);
  }

  Step-IsSound : {s t : System M} → Step s t → IsSound s → IsSound t
  unfolding add step accepted
  Step-IsSound (stop_unused {s} key q) i =
      stopped-IsSound key s s.pc s.running i (λ n. refl) (λ k e. inl e)
  Step-IsSound (look key rv q g) i = record {
    one_each = i.one_each;
    is_clear = λ k e. ground (arith, e);
    conserved = λ n. ground (arith, q, i.conserved n);
  }
  Step-IsSound (clear {s} {key} {rv} q) i =
      stopped-IsSound key s (cleared key rv) s.running i (λ n. ground (arith, q))
        (λ k e. inr (ground (arith, e)))
  Step-IsSound (give_up q) i = record {
    one_each = i.one_each;
    is_clear = λ k e. ground (arith, e);
    conserved = λ n. ground (arith, q, i.conserved n);
  }
  Step-IsSound (launch {key = key} m c q) i = record {
    one_each = i.one_each;
    is_clear = λ k e. i.is_clear k (ground (arith, q, e));
    conserved = λ n. ground (arith, q, i.conserved n);
  }
  Step-IsSound (enter {s} {key} {rv} {m} {c} q) i = record {
    one_each = step-NodupKeys (add_call key rv m c) s.store i.one_each;
    is_clear = λ k e. ground (arith, e);
    conserved = λ n. ground (
      arith,
      q,
      i.conserved n,
      i.is_clear key (ground (arith, q)),
      step-conserves n (add_call key rv m c) s.store i.one_each,
    );
  }
  Step-IsSound (fail {s} before after name m c q) i =
      stopped-IsSound name s s.pc (before ++ after) i (λ n. refl) (λ k e. inl e)
  Step-IsSound (finish before after name m c q) i = record {
    one_each = i.one_each;
    is_clear = i.is_clear;
    conserved = i.conserved;
  }

  Steps-IsSound : {s t : System M} → Steps s t → IsSound s → IsSound t
  Steps-IsSound here i = i
  Steps-IsSound (next st rest) i = Steps-IsSound rest (Step-IsSound st i)

  -- In whatever order the worker and the goroutines take their steps, the stop function of every
  -- manager that was ever started is in one place: it is in the store, or the worker has it in hand
  -- for its `Add`, or it has been called; and the store has no key twice.
  pub Steps-conserved :
      {s : System M} (n : ℕ)
      → Steps initial s
      → (count n s.store.stopped + live n s.store.store + in_hand n s.pc
          ≡ count n (cancels s.started))
        × NodupKeys s.store.store
  Steps-conserved n r = let i = Steps-IsSound r initial-IsSound in (i.conserved n, i.one_each)

  -- In whatever order the worker and the goroutines take their steps, the `Add` of the worker, whose
  -- answer is ignored, is accepted, and the new manager is found with its version of the Secret.
  pub enter-accepted :
      {s : System M} {key rv : String} {m : M} {c : ℕ}
      → Steps initial s
      → s.pc ≡ launched key rv m c
      → ((add key rv m c s.store).0 ≡ true)
        × (get key rv (add key rv m c s.store).1 ≡ (some m, true))
  unfolding add get
  enter-accepted {s} {key} {rv} {m} {c} r q =
      let i = Steps-IsSound r initial-IsSound in
      let free = i.is_clear key (ground (arith, q)) in
      (
        ground (arith, free),
        ground (arith, free, lookup-add key rv key m c s.store free, eq_refl key, eq_refl rv),
      )
