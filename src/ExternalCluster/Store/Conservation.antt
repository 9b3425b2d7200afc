-- ===== src/ExternalCluster/Store/Conservation.antt =====
-- Where the stop functions of managers go.
use cluster_api_control_plan.Base.{
  NodupKeys, ℕ, suc, ◌+◌, String, ◌≡◌, refl, Option, none, some, List, [], ◌∷◌, Entries, lookup,
  insert, erase, arith, eq_iff, lookup-insert, lookup-erase, if◌then◌else◌, nat_eq, is_some,
}
use cluster_api_control_plan.ExternalCluster.Store.{Instance, Store, stop, add}
use cluster_api_control_plan.ExternalCluster.Store.Laws.{Call, get_call, stop_call, add_call, step}

-- How often a number stands in a list.
abbrev pub count : ℕ → List ℕ → ℕ
count n [] = 0
count n (x ∷ xs) = if nat_eq x n then suc (count n xs) else count n xs

module _ {ℓ} {M : Type ℓ} where
  -- How many entries have this stop function.
  abbrev pub live : ℕ → Entries (Instance M) → ℕ
  live c [] = 0
  live c ((k, v) ∷ m) = if nat_eq v.stop_func c then suc (live c m) else live c m

  abbrev of : ℕ → Option (Instance M) → ℕ
  of c none = 0
  of c (some v) = if nat_eq v.stop_func c then 1 else 0

  live-erase :
      (c : ℕ) (k : String) (m : Entries (Instance M))
      → NodupKeys m
      → live c (erase k m) + of c (lookup k m) ≡ live c m
  unfolding erase lookup
  live-erase c k [] u = refl
  live-erase c k ((j, v) ∷ m) (fresh, u) = ground (arith, live-erase c k m u, eq_iff j k)

  live-insert :
      (c : ℕ) (k : String) (v : Instance M) (m : Entries (Instance M))
      → lookup k m ≡ none
      → live c (insert k v m) ≡ live c m + of c (some v)
  unfolding insert lookup
  live-insert c k v [] h = ground arith
  live-insert c k v ((j, w) ∷ m) h = ground (arith, live-insert c k v m, eq_iff j k)

  erase-NodupKeys : (k : String) (m : Entries (Instance M)) → NodupKeys m → NodupKeys (erase k m)
  unfolding erase
  erase-NodupKeys k [] u = tt
  erase-NodupKeys k ((j, v) ∷ m) (fresh, u) =
      ground (arith, erase-NodupKeys k m u, lookup-erase k j m)

  insert-NodupKeys :
      (k : String) (v : Instance M) (m : Entries (Instance M))
      → NodupKeys m
      → NodupKeys (insert k v m)
  unfolding insert lookup
  insert-NodupKeys k v [] u = (refl, tt)
  insert-NodupKeys k v ((j, w) ∷ m) (fresh, u) =
      ground (arith, insert-NodupKeys k v m u, lookup-insert k j v m, eq_iff j k, eq_iff k j)

  pub step-NodupKeys : (c : Call M) (s : Store M) → NodupKeys s.store → NodupKeys (step c s).1.store
  unfolding step stop add
  step-NodupKeys (get_call name rv) s u = u
  step-NodupKeys (stop_call name) s u = ground (arith, erase-NodupKeys name s.store u)
  step-NodupKeys (add_call name rv m c) s u = ground (
    arith,
    insert-NodupKeys name (record { resource_version = rv; manager = m; stop_func = c }) s.store u,
  )

  -- The stop functions that a call hands over: that of an `Add` which is accepted.
  unfoldable pub accepted : ℕ → Call M → Store M → ℕ
  accepted n (add_call name rv m c) s =
      if is_some (lookup name s.store) then 0 else if nat_eq c n then 1 else 0
  accepted n _ s = 0

  pub step-conserves :
      (n : ℕ) (c : Call M) (s : Store M)
      → NodupKeys s.store
      → count n (step c s).1.stopped + live n (step c s).1.store
        ≡ count n s.stopped + live n s.store + accepted n c s
  unfolding step stop add accepted
  step-conserves n (get_call name rv) s u = omega arith
  step-conserves n (stop_call name) s u = ground (arith, live-erase n name s.store u)
  step-conserves n (add_call name rv m c) s u = ground (
    arith,
    live-insert n name (record { resource_version = rv; manager = m; stop_func = c }) s.store,
  )

  unfoldable pub after : List (Call M) → Store M → Store M
  after [] s = s
  after (c ∷ calls) s = after calls (step c s).1

  unfoldable pub total_accepted : ℕ → List (Call M) → Store M → ℕ
  total_accepted n [] s = 0
  total_accepted n (c ∷ calls) s = accepted n c s + total_accepted n calls (step c s).1

  -- From a store with one entry for each key, after any calls: each stop function that was running
  -- before or was accepted by an `Add` either is still in the store or has been called, once for
  -- each time that it was handed over.
  pub after-conserves :
      (n : ℕ) (calls : List (Call M)) (s : Store M)
      → NodupKeys s.store
      → count n (after calls s).stopped + live n (after calls s).store
        ≡ count n s.stopped + live n s.store + total_accepted n calls s
  unfolding after total_accepted
  after-conserves n [] s u = omega arith
  after-conserves n (c ∷ calls) s u =
      omega
        (arith, step-conserves n c s u, after-conserves n calls (step c s).1 (step-NodupKeys c s u))
