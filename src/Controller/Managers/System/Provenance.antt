-- ===== src/Controller/Managers/System/Provenance.antt =====
-- Where the managers of the store come from, in every interleaving.
use mathlib.Core.Path.{subst}
use cluster_api_control_plan.Base.{
  inl, inr, eq_iff, ℕ, String, ◌≡◌, refl, Bool, some, List, ◌∷◌, lookup, arith, Option-cases,
  Bool-cases, ap, ◌==◌,
}
use cluster_api_control_plan.ExternalCluster.Store.{Instance, Store, get, stop, add}
use cluster_api_control_plan.Controller.Managers.Loading.{lookup-stop, lookup-add}
use cluster_api_control_plan.Controller.Managers.System.{
  launched, System, initial, Step, stop_unused, look, clear, give_up, launch, enter, fail, finish,
  Steps, here, next,
}

module _ {ℓ} {M : Type ℓ} where
  -- The manager and its cancel function were handed to a goroutine under the key.
  pub data WasStarted (key : String) (m : M) (c : ℕ) : List (String × M × ℕ) → Type ℓ where
    latest : {others : List (String × M × ℕ)} → WasStarted key m c ((key, m, c) ∷ others)
    earlier :
        {x : String × M × ℕ} {others : List (String × M × ℕ)}
        → WasStarted key m c others
        → WasStarted key m c (x ∷ others)

  same-WasStarted :
      {key key' : String} {m m' : M} {c c' : ℕ} {all : List (String × M × ℕ)}
      → key ≡ key'
      → m ≡ m'
      → c ≡ c'
      → WasStarted key m c all
      → WasStarted key' m' c' all
  same-WasStarted {key} {m} {m'} {c'} {all} e f g w =
      subst (λ k. WasStarted k m' c' all) e
        (subst (λ x. WasStarted key x c' all) f (subst (λ n. WasStarted key m n all) g w))

  record IsTraced (s : System M) : Type ℓ where
    stored :
        (key : String) (v : Instance M)
        → lookup key s.store.store ≡ some v
        → WasStarted key v.manager v.stop_func s.started
    in_hand :
        (key rv : String) (m : M) (c : ℕ)
        → s.pc ≡ launched key rv m c
        → WasStarted key m c s.started

  stopped-stored :
      (name : String) (s : Store M) (started : List (String × M × ℕ))
      → ((key : String) (v : Instance M)
          → lookup key s.store ≡ some v
          → WasStarted key v.manager v.stop_func started)
      → (key : String) (v : Instance M) → lookup key (stop name s).1.store ≡ some v
      → WasStarted key v.manager v.stop_func started
  stopped-stored name s started i key v h = i key v (ground (arith, lookup-stop name key s, h))

  added-stored :
      (name rv : String) (m : M) (c : ℕ) (s : Store M) (started : List (String × M × ℕ))
      → ((key : String) (v : Instance M)
          → lookup key s.store ≡ some v
          → WasStarted key v.manager v.stop_func started)
      → WasStarted name m c started
      → (key : String) (v : Instance M) → lookup key (add name rv m c s).1.store ≡ some v
      → WasStarted key v.manager v.stop_func started
  unfolding add
  added-stored name rv m c s started i new key v h = elim (Option-cases (lookup name s.store)) [
    | inr (old, q) ↦ i key v (ground (arith, h, q))
    | inl q ↦ elim (Bool-cases (name == key)) [
      | inr n ↦ i key v (ground (arith, h, q, n, lookup-add name rv key m c s q))
      | inl y ↦
          let entry : record { resource_version = rv; manager = m; stop_func = c } ≡ v =
            ground (arith, h, q, y, lookup-add name rv key m c s q) in
          same-WasStarted ((eq_iff name key).0 y) (ap (λ (x : Instance M). x.manager) entry)
            (ap (λ (x : Instance M). x.stop_func) entry) new
    ]
  ]

  initial-IsTraced : IsTraced initial
  unfolding lookup
  initial-IsTraced = record {
    stored = λ key v h. ground (arith, h);
    in_hand = λ key rv m c h. ground (arith, h);
  }

  Step-IsTraced : {s t : System M} → Step s t → IsTraced s → IsTraced t
  unfolding add
  Step-IsTraced (stop_unused {s} name q) i = record {
    stored = stopped-stored name s.store s.started i.stored;
    in_hand = i.in_hand;
  }
  Step-IsTraced (look name rv q g) i = record {
    stored = i.stored;
    in_hand = λ key rv m c h. ground (arith, h);
  }
  Step-IsTraced (clear {s} {key = name} q) i = record {
    stored = stopped-stored name s.store s.started i.stored;
    in_hand = λ key rv m c h. ground (arith, h);
  }
  Step-IsTraced (give_up q) i = record {
    stored = i.stored;
    in_hand = λ key rv m c h. ground (arith, h);
  }
  Step-IsTraced (launch {key = name} m c q) i = record {
    stored = λ key v h. earlier (i.stored key v h);
    in_hand = λ key rv m' c' h.
        same-WasStarted (ground (arith, h)) (ground (arith, h)) (ground (arith, h)) latest;
  }
  Step-IsTraced (enter {s} {key = name} {rv} {m} {c} q) i = record {
    stored = added-stored name rv m c s.store s.started i.stored (i.in_hand name rv m c q);
    in_hand = λ key rv m c h. ground (arith, h);
  }
  Step-IsTraced (fail {s} before after name m c q) i = record {
    stored = stopped-stored name s.store s.started i.stored;
    in_hand = i.in_hand;
  }
  Step-IsTraced (finish before after name m c q) i = record {
    stored = i.stored;
    in_hand = i.in_hand;
  }

  Steps-IsTraced : {s t : System M} → Steps s t → IsTraced s → IsTraced t
  Steps-IsTraced here i = i
  Steps-IsTraced (next st rest) i = Steps-IsTraced rest (Step-IsTraced st i)

  -- In whatever order the worker and the goroutines take their steps, a manager that `Get` finds
  -- under a key, whatever the version asked for, is one that was started for this very key.
  pub get-WasStarted :
      {s : System M} {key : String} {m : M} {is_current : Bool} (rv : String)
      → Steps initial s
      → get key rv s.store ≡ (some m, is_current)
      → (c : ℕ) × WasStarted key m c s.started
  unfolding get
  get-WasStarted {s} {key} {m} rv r h =
      let i = Steps-IsTraced r initial-IsTraced in
      elim (Option-cases (lookup key s.store.store)) [
        | inl q ↦ ground (arith, h, q)
        | inr (v, q) ↦
            (v.stop_func, same-WasStarted refl (ground (arith, h, q)) refl (i.stored key v q))
      ]
