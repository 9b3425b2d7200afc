-- ===== src/Controller/Reconcile/Chain.antt =====
-- A call of `Reconcile` as a sequence of steps, each of which goes on or returns.
use cluster_api_control_plan.Base.{ℕ}
use cluster_api_control_plan.Errors.{Error, Result, ok, err}
use cluster_api_control_plan.Objects.{Foreign}
use cluster_api_control_plan.Kube.{Kube}
use cluster_api_control_plan.Controller.Run.{Run, Action}

-- `ctrl.Result{}, nil`; `ctrl.Result{RequeueAfter: n seconds}, nil`; `ctrl.Result{}, err`.
pub data Outcome : Type 0 where
  finished : Outcome
  requeue_after : ℕ → Outcome
  failed : Error → Outcome

pub data Flow (A : Type 0) : Type 0 where
  next : A → Flow A
  return : Outcome → Flow A

abbrev pub Exec : {F : Foreign} → Kube F → Type 0 → Type 0
Exec K A = Run K → Flow A × Run K

module _ {F : Foreign} {K : Kube F} {A B : Type 0} where
  abbrev pub continue : Flow A → (A → Exec K B) → Exec K B
  continue (next a) f run = f a run
  continue (return o) f run = (return o, run)

  infixl 5 ◌>>=◌ ◌>>◌
  abbrev pub ◌>>=◌ : Exec K A → (A → Exec K B) → Exec K B
  ◌>>=◌ m f run = let (a, run1) = m run in continue a f run1

  abbrev pub ◌>>◌ : Exec K A → Exec K B → Exec K B
  m >> n = m >>= λ _. n

abbrev pub on_error : {A : Type 0} → (Error → Outcome) → Result A → Flow A
on_error f (ok a) = next a
on_error f (err e) = return (f e)

module _ {F : Foreign} {K : Kube F} {A : Type 0} where
  abbrev pub pure : A → Exec K A
  pure a run = (next a, run)

  abbrev pub stop : Outcome → Exec K A
  stop o run = (return o, run)

  -- `if err != nil { return … }` after a call
  abbrev pub or_return : (Error → Outcome) → Action K A → Exec K A
  or_return f action run = let (r, run1) = action run in (on_error f r, run1)
