-- ===== src/Controller/Reconcile/Progress/Chain.antt =====
-- Chains of steps that go on.
use cluster_api_control_plan.Base.{◌≡◌, ℕ, arith, String}
use cluster_api_control_plan.Errors.{Result, Error, ok}
use cluster_api_control_plan.Objects.{Foreign, KamajiControlPlane}
use cluster_api_control_plan.Kube.{Kube}
use cluster_api_control_plan.Kube.Laws.{Retries, last, again}
use cluster_api_control_plan.Controller.Run.{Run, Action}
use cluster_api_control_plan.Controller.Conditions.{track_condition_type}
use cluster_api_control_plan.Controller.Reconcile.Chain.{Outcome, Exec, next, ◌>>=◌, or_return}
use cluster_api_control_plan.Controller.Reconcile.Steps.{tracked}

-- A closure that succeeds wherever the invariant holds is run once.
pub Retries-ok :
    {S : Type 0} {f : S → Result (Unit {0}) × S} {P Q : S → Type 0}
    → ((s : S) → P s → (s' : S) × (f s ≡ (ok tt, s')) × Q s')
    → {s : S} {out : Result (Unit {0}) × S} → Retries f s out
    → P s
    → (s' : S) × (out ≡ (ok tt, s')) × Q s'
Retries-ok go (last s out run) p = let (s', e, q) = go s p in (s', ground (arith, e), q)
Retries-ok go (again e s s1 out run clash more) p = let (s', q, _) = go s p in ground (arith, q)

module _ {F : Foreign} (K : Kube F) where
  -- The steps go on, with such a value and such variables.
  abbrev pub Proceeds : {A : Type 0} → Exec K A → Run K → (A → Run K → Type 0) → Type 0
  Proceeds {A} m run Q = (x : A) × (run' : Run K) × (m run ≡ (next x, run')) × Q x run'

  pub Proceeds-bind :
      {A B : Type 0} (m : Exec K A) (f : A → Exec K B) {run : Run K} {P : A → Run K → Type 0}
      {Q : B → Run K → Type 0}
      → Proceeds m run P
      → ((x : A) (run1 : Run K) → P x run1 → Proceeds (f x) run1 Q)
      → Proceeds (m >>= f) run Q
  Proceeds-bind m f (x, run1, e, p) go =
      let (y, run2, e', q) = go x run1 p in (y, run2, ground (arith, e, e'), q)

  -- An action that succeeds.
  abbrev pub Succeeds : {A : Type 0} → Action K A → Run K → (A → Run K → Type 0) → Type 0
  Succeeds {A} action run Q = (x : A) × (run' : Run K) × (action run ≡ (ok x, run')) × Q x run'

  pub Proceeds-or_return :
      {A : Type 0} (f : Error → Outcome) (action : Action K A) {run : Run K}
      {Q : A → Run K → Type 0}
      → Succeeds action run Q
      → Proceeds (or_return f action) run Q
  Proceeds-or_return f action (x, run', e, q) = (x, run', ground (arith, e), q)

  module _ (Good : K.World → Type 0) (ticks : (w : K.World) → Good w → Good (K.now w).1) where
    -- Tracking reads the clock and writes conditions; what is said of the object stays true.
    pub Succeeds-track :
        {A : Type 0} (t : String) (g : ℕ) (action : Action K A) {run : Run K}
        (Q : A → KamajiControlPlane F → Type 0)
        → Succeeds action run (λ x run'. Good run'.world × Q x run'.kcp)
        → Succeeds
            (track_condition_type K t g action)
            run
            (λ x run'. Good run'.world × Q x run'.kcp)
    unfolding track_condition_type
    Succeeds-track t g action {run} Q (x, run', e, (good, q)) =
        let out = track_condition_type K t g action run in
        (
          x,
          out.1,
          ground (arith, e),
          (
            ground (
              arith,
              e,
              ticks run'.world good,
              ticks (K.now run'.world).1 (ticks run'.world good),
            ),
            ground (arith, e, q),
          ),
        )

    pub Proceeds-tracked :
        {A : Type 0} (t : String) (f : Error → Outcome) (action : Action K A) {run : Run K}
        (Q : A → KamajiControlPlane F → Type 0)
        → Succeeds action run (λ x run'. Good run'.world × Q x run'.kcp)
        → Proceeds (tracked K t f action) run (λ x run'. Good run'.world × Q x run'.kcp)
    unfolding tracked
    Proceeds-tracked t f action {run} Q h =
        Proceeds-or_return f (track_condition_type K t run.kcp.meta.generation action)
          (Succeeds-track t run.kcp.meta.generation action Q h)
