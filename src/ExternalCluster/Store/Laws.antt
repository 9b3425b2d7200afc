-- ===== src/ExternalCluster/Store/Laws.antt =====
-- `mapStore` against a finite map from keys to running managers.
use mathlib.Core.Path.{fun_ext, ap₂, ◌∙◌}
use cluster_api_control_plan.Base.{
  ℕ, String, ◌==◌, ◌≡◌, refl, ap, Bool, true, false, Option, none, some, List, [], ◌∷◌, lookup,
  arith, eq_iff, lookup-insert, lookup-erase, if◌then◌else◌, is_some,
}
use cluster_api_control_plan.ExternalCluster.Store.{Instance, Store, get, stop, add}

-- The methods of the interface `Store`.
pub data Call {ℓ} (M : Type ℓ) : Type ℓ where
  get_call : String → String → Call M
  stop_call : String → Call M
  add_call : String → String → M → ℕ → Call M

pub data Reply {ℓ} (M : Type ℓ) : Type ℓ where
  manager : Option M → Bool → Reply M
  done : Bool → Reply M

-- The specification's state: the running manager of each key.
abbrev pub Running {ℓ} : Type ℓ → Type ℓ
Running M = String → Option (Instance M)

module _ {ℓ} {M : Type ℓ} where
  unfoldable pub step : Call M → Store M → Reply M × Store M
  step (get_call name rv) s = let (m, found) = get name rv s in (manager m found, s)
  step (stop_call name) s = let (b, t) = stop name s in (done b, t)
  step (add_call name rv m c) s = let (b, t) = add name rv m c s in (done b, t)

  unfoldable pub replies : List (Call M) → Store M → List (Reply M)
  replies [] s = []
  replies (c ∷ calls) s = let (r, t) = step c s in r ∷ replies calls t

  abbrev pub put : String → Option (Instance M) → Running M → Running M
  put name v f j = if name == j then v else f j

  -- A manager is found if it runs with the wanted version; one of another version is still shown.
  abbrev pub spec_get : String → Option (Instance M) → Reply M
  spec_get rv none = manager none false
  spec_get rv (some v) = manager (some v.manager) (v.resource_version == rv)

  abbrev pub spec_add : Option (Instance M) → String → Instance M → Running M → Reply M × Running M
  spec_add none name v f = (done true, put name (some v) f)
  spec_add (some w) name v f = (done false, f)

  unfoldable pub spec_step : Call M → Running M → Reply M × Running M
  spec_step (get_call name rv) f = (spec_get rv (f name), f)
  spec_step (stop_call name) f = (done (is_some (f name)), put name none f)
  spec_step (add_call name rv m c) f =
      spec_add (f name) name (record { resource_version = rv; manager = m; stop_func = c }) f

  unfoldable pub spec_replies : List (Call M) → Running M → List (Reply M)
  spec_replies [] f = []
  spec_replies (c ∷ calls) f = let (r, g) = spec_step c f in r ∷ spec_replies calls g

  -- What a store shows of its entries.
  abbrev pub view : Store M → Running M
  view s j = lookup j s.store

  stop-view :
      (name : String) (s : Store M) (j : String) → view (stop name s).1 j ≡ put name none (view s) j
  unfolding stop
  stop-view name s j = ground (arith, lookup-erase name j s.store, eq_iff name j)

  reply-step : (c : Call M) (s : Store M) → (step c s).0 ≡ (spec_step c (view s)).0
  unfolding step spec_step get stop add
  reply-step (get_call name rv) s = ground arith
  reply-step (stop_call name) s = ground arith
  reply-step (add_call name rv m c) s = ground arith

  view-step :
      (c : Call M) (s : Store M) (j : String) → view (step c s).1 j ≡ (spec_step c (view s)).1 j
  unfolding step spec_step add
  view-step (get_call name rv) s j = refl
  view-step (stop_call name) s j = stop-view name s j
  view-step (add_call name rv m c) s j = ground (
    arith,
    lookup-insert name j (record { resource_version = rv; manager = m; stop_func = c }) s.store,
  )

  -- Any calls, in any order, get from a store the replies of the specification.
  pub replies-refine :
      (calls : List (Call M)) (s : Store M) → replies calls s ≡ spec_replies calls (view s)
  unfolding replies spec_replies
  replies-refine [] s = refl
  replies-refine (c ∷ calls) s =
      ap₂ ◌∷◌ (reply-step c s)
        (replies-refine calls (step c s).1 ∙ ap (spec_replies calls) (fun_ext (view-step c s)))
