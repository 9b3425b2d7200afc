-- ===== src/Controller/Reconcile/Inversion.antt =====
-- What is known of the parts of a chain of steps that goes on.
use cluster_api_control_plan.Base.{◌≡◌, refl, String, ◌⊎◌, inl, inr, arith}
use cluster_api_control_plan.Errors.{Error, ok, Result-cases}
use cluster_api_control_plan.Objects.{Foreign}
use cluster_api_control_plan.Kube.{Kube}
use cluster_api_control_plan.Controller.Run.{Run, Action}
use cluster_api_control_plan.Controller.Conditions.{track_condition_type}
use cluster_api_control_plan.Controller.Reconcile.Chain.{
  Outcome, Flow, next, return, Exec, or_return, ◌>>=◌,
}
use cluster_api_control_plan.Controller.Reconcile.Steps.{tracked}

pub Flow-cases :
    {A : Type 0} (f : Flow A) → ((a : A) × (f ≡ next a)) ⊎ ((o : Outcome) × (f ≡ return o))
Flow-cases (next a) = inl (a, refl)
Flow-cases (return o) = inr (o, refl)

module _ {F : Foreign} (K : Kube F) where
  pub next-bind :
      {A B : Type 0} (m : Exec K A) (f : A → Exec K B) {run run' : Run K} {b : B}
      → (m >>= f) run ≡ (next b, run')
      → (a : A) × (run1 : Run K) × (m run ≡ (next a, run1)) × (f a run1 ≡ (next b, run'))
  next-bind m f {run} h = elim (Flow-cases (m run).0) [
    | inl (a, q) ↦ (a, (m run).1, ground arith, ground arith)
    | inr (o, q) ↦ ground arith
  ]

  pub next-or_return :
      {A : Type 0} (f : Error → Outcome) (action : Action K A) {run run' : Run K} {a : A}
      → or_return f action run ≡ (next a, run')
      → action run ≡ (ok a, run')
  next-or_return f action {run} h = elim (Result-cases (action run).0) [
    | inl (a, q) ↦ ground arith
    | inr (e, q) ↦ ground arith
  ]

  pub next-tracked :
      {A : Type 0} (t : String) (f : Error → Outcome) (action : Action K A) {run run' : Run K}
      {a : A}
      → tracked K t f action run ≡ (next a, run')
      → ((action run).0 ≡ ok a) × (run'.kcp ≡ (action run).1.kcp)
  unfolding tracked track_condition_type
  next-tracked t f action {run} h = elim (Result-cases (action run).0) [
    | inl (a, q) ↦ ground arith
    | inr (e, q) ↦ ground arith
  ]
