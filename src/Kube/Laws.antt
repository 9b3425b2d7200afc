-- ===== src/Kube/Laws.antt =====
-- The documented behaviour of the parameters of `Kube` that theorems rely on, each as a predicate
-- that a theorem takes as a hypothesis.
use cluster_api_control_plan.Errors.{ok, Error, Result, err, is_conflict}
use cluster_api_control_plan.Objects.{Foreign, Condition, KamajiControlPlane, ObjectMeta}
use cluster_api_control_plan.Base.{
  contains, not, ◌&&◌, ◌||◌, Bool, ℕ, String, ◌≡◌, ◌==◌, Option, none, some, List, if◌then◌else◌,
  true, Entries, lookup, [], ◌∷◌,
}
use cluster_api_control_plan.Kube.Interface.{Kube, Nested, text, number}
use cluster_api_control_plan.Base.Int.{ℤ}

-- The runs that `RetryOnConflict` may make of `f`: it runs again only after a conflict, from what
-- the failed run left, and answers as its last run did.
pub data Retries {S : Type 0} (f : S → Result (Unit {0}) × S)
    : S → Result (Unit {0}) × S → Type 0 where
  last : (s : S) (out : Result (Unit {0}) × S) → f s ≡ out → Retries f s out
  again :
      (e : Error) (s s' : S) (out : Result (Unit {0}) × S)
      → f s ≡ (err e, s')
      → is_conflict e ≡ true
      → Retries f s' out
      → Retries f s out

-- A condition with its time of transition left aside.
abbrev pub timeless : Condition → Condition
timeless c = record c { last_transition_time = 0 }

abbrev pub timeless? : Option Condition → Option Condition
timeless? none = none
timeless? (some c) = some (timeless c)

-- `meta.SetStatusCondition` replaces the condition of its type or appends it, up to the time of
-- transition; `meta.FindStatusCondition` finds by type; `meta.RemoveStatusCondition` removes by type.
pub record IsLawfulConditions (find : List Condition → String → Option Condition)
    (set : ℕ → List Condition → Condition → List Condition)
    (remove : List Condition → String → List Condition) : Type 0 where
  pub find-kind :
      (cs : List Condition) (t : String) (c : Condition) → find cs t ≡ some c → c.kind ≡ t
  pub find-set :
      (now : ℕ) (cs : List Condition) (c : Condition) (t : String)
      → timeless? (find (set now cs c) t)
        ≡ (if c.kind == t then some (timeless c) else timeless? (find cs t))
  pub find-remove :
      (cs : List Condition) (t u : String)
      → find (remove cs t) u ≡ (if t == u then none else find cs u)

-- `sets.Set[string]`: membership.
pub record IsLawfulSets {Set : Type 0} (new : List String → Set) (has : Set → String → Bool)
    (add : Set → String → Set) (drop : Set → String → Set) (members : Set → List String)
    : Type 0 where
  pub has-new : (xs : List String) (x : String) → has (new xs) x ≡ contains x xs
  pub has-add : (s : Set) (x y : String) → has (add s x) y ≡ (x == y || has s y)
  pub has-drop : (s : Set) (x y : String) → has (drop s x) y ≡ (not (x == y) && has s y)
  pub contains-members : (s : Set) (x : String) → contains x (members s) ≡ has s x

-- `RetryOnConflict` makes some such runs.
abbrev pub IsLawfulRetry :
    ((S : Type 0) → (S → Result (Unit {0}) × S) → S → Result (Unit {0}) × S) → Type 1
IsLawfulRetry retry =
    (S : Type 0) (f : S → Result (Unit {0}) × S) (s : S) → Retries f s (retry S f s)

-- What every failed run keeps holds of the run that gives the answer.
pub Retries-final :
    {S : Type 0} {f : S → Result (Unit {0}) × S} (I : S → Type 0)
    → ((s s' : S) (e : Error) → I s → f s ≡ (err e, s') → I s')
    → {s : S} {out : Result (Unit {0}) × S} → Retries f s out
    → I s
    → (t : S) × I t × (f t ≡ out)
Retries-final I keep (last s out run) i = (s, i, run)
Retries-final I keep (again e s s' out run clash more) i =
    Retries-final I keep more (keep s s' e i run)

-- `unstructured.SetNestedMap` and `SetNestedField`: what is written can be read, and what stands
-- under another top-level field is kept.
pub record IsLawfulObjects {F : Foreign} (K : Kube F) : Type 0 where
  pub string-set_map :
      (u u' : K.Unstructured) (fields : Entries Nested) (key h : String)
      → K.set_nested_map u fields ("spec" ∷ "controlPlaneEndpoint" ∷ []) ≡ ok u'
      → lookup key fields ≡ some (text h)
      → K.nested_string u' ("spec" ∷ "controlPlaneEndpoint" ∷ key ∷ []) ≡ ok h
  pub int64-set_map :
      (u u' : K.Unstructured) (fields : Entries Nested) (key : String) (p : ℤ)
      → K.set_nested_map u fields ("spec" ∷ "controlPlaneEndpoint" ∷ []) ≡ ok u'
      → lookup key fields ≡ some (number p)
      → K.nested_int64 u' ("spec" ∷ "controlPlaneEndpoint" ∷ key ∷ []) ≡ ok p
  pub string-set_status :
      (u u' : K.Unstructured) (v : Nested) (path : List String)
      → K.set_nested_field u v ("status" ∷ "ready" ∷ []) ≡ ok u'
      → K.nested_string u' ("spec" ∷ path) ≡ K.nested_string u ("spec" ∷ path)
  pub int64-set_status :
      (u u' : K.Unstructured) (v : Nested) (path : List String)
      → K.set_nested_field u v ("status" ∷ "ready" ∷ []) ≡ ok u'
      → K.nested_int64 u' ("spec" ∷ path) ≡ K.nested_int64 u ("spec" ∷ path)

-- `controllerutil.SetControllerReference` writes nothing but the list of owners, and has nothing to
-- do on an object of that namespace that has this list already.
pub record IsLawfulOwner {F : Foreign} {Client : Type 0}
    (set : KamajiControlPlane F → Client → ObjectMeta → Result ObjectMeta) : Type 0 where
  pub only_owners :
      (kcp : KamajiControlPlane F) (client : Client) (m : ObjectMeta) {m' : ObjectMeta}
      → set kcp client m ≡ ok m'
      → m' ≡ record m { owner_references = m'.owner_references }
  pub once :
      (kcp : KamajiControlPlane F) (client : Client) (m n : ObjectMeta) {m' : ObjectMeta}
      → set kcp client m ≡ ok m'
      → n.namespace ≡ m.namespace
      → n.owner_references ≡ m'.owner_references
      → set kcp client n ≡ ok n
