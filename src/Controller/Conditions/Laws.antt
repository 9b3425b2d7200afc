-- ===== src/Controller/Conditions/Laws.antt =====
-- What `TrackConditionType` leaves in the conditions.
use cluster_api_control_plan.Base.{
  List, Option-cases, inl, inr, ℕ, String, ◌==◌, ◌≡◌, ap, ◌∙◌, refl, some, arith, if◌then◌else◌,
}
use cluster_api_control_plan.Errors.{Result, ok, err, is_enqueue_back, error_text}
use cluster_api_control_plan.Objects.{Foreign, Condition, status_true, status_false}
use cluster_api_control_plan.Kube.{Kube}
use cluster_api_control_plan.Kube.Laws.{IsLawfulConditions, timeless, timeless?}
use cluster_api_control_plan.Controller.Run.{Run, Action}
use cluster_api_control_plan.Controller.Conditions.{
  found_or_new, outcome, stamp, track_condition_type,
}

-- The condition that reports an outcome, its time of transition left aside.
abbrev pub report : {A : Type 0} → String → ℕ → Result A → Condition
report t generation r = record {
  kind = t;
  status = elim r [ ok a ↦ status_true | err e ↦ status_false ];
  observed_generation = generation;
  last_transition_time = 0;
  reason = elim r [
    | ok a ↦ "Succeeded"
    | err e ↦ if is_enqueue_back e then "Failed" else "Pending"
  ];
  message = elim r [ ok a ↦ "" | err e ↦ error_text e ];
}

module _ {F : Foreign} (K : Kube F)
    (L : IsLawfulConditions K.find_status_condition K.set_status_condition
      K.remove_status_condition) where
  -- The step runs once and its result is passed on.
  pub result-track :
      {A : Type 0} (t : String) (g : ℕ) (fn : Action K A) (run : Run K)
      → (track_condition_type K t g fn run).0 ≡ (fn run).0
  unfolding track_condition_type
  result-track t g fn run = refl

  pub kcp-track :
      {A : Type 0} (t : String) (g : ℕ) (fn : Action K A) (run : Run K)
      → (track_condition_type K t g fn run).1.kcp ≡ (fn run).1.kcp
  unfolding track_condition_type
  kcp-track t g fn run = refl

  -- What is found or made has the wanted type.
  kind-found :
      (t : String) (cs : List Condition) → (found_or_new t (K.find_status_condition cs t)).kind ≡ t
  kind-found t cs = elim (Option-cases (K.find_status_condition cs t)) [
    | inl e ↦ rw e
    | inr (c, e) ↦ rw e (L.find-kind cs t c e)
  ]

  outcome-report :
      {A : Type 0} (r : Result A) (c : Condition) (w : K.World)
      → timeless (outcome K r c w).0 ≡ report c.kind c.observed_generation r
  unfolding outcome stamp
  outcome-report (ok a) c w = ground arith
  outcome-report (err e) c w = ground arith

  find-written :
      (now : ℕ) (cs : List Condition) (c d : Condition) (u : String)
      → timeless c ≡ d
      → timeless? (K.find_status_condition (K.set_status_condition now cs c) u)
        ≡ (if d.kind == u then some d else timeless? (K.find_status_condition cs u))
  find-written now cs c d u e =
      L.find-set now cs c u
      ∙ ap
          (λ (x : Condition).
            if x.kind == u then some x else timeless? (K.find_status_condition cs u))
          e

  -- After a tracked step the condition of its type reports the result of the step: its status,
  -- reason, message and generation. The conditions of all other types are those that the step left.
  pub find-track :
      {A : Type 0} (t : String) (g : ℕ) (fn : Action K A) (run : Run K) (u : String)
      → timeless? (K.find_status_condition (track_condition_type K t g fn run).1.conditions u) ≡ (
          if t == u
          then some (report t g (fn run).0)
          else timeless? (K.find_status_condition (fn run).1.conditions u))
  unfolding track_condition_type
  find-track t g fn run u =
      let c : Condition = record (found_or_new t (K.find_status_condition run.conditions t)) {
        observed_generation = g;
      } in
      let (out, w) = outcome K (fn run).0 c (fn run).1.world in
      find-written (K.now w).0 (fn run).1.conditions out (report t g (fn run).0) u (
        outcome-report (fn run).0 c (fn run).1.world
        ∙ ap (λ k. report k g (fn run).0) (kind-found t run.conditions))
