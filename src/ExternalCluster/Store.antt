-- ===== src/ExternalCluster/Store.antt =====
-- pkg/externalclusterreference/store.go: `mapStore`, the managers of the other clusters by key. The
-- mutex makes each method one step. A stop function is a number that stands for its identity, and
-- a call of it is noted in `stopped`.
pub mod Laws
pub mod Conservation
use cluster_api_control_plan.Base.{
  ℕ, String, ◌!=◌, Bool, true, false, Option, none, some, List, [], ◌∷◌, Entries, lookup, insert,
  erase, is_some, if◌then◌else◌,
}

module _ {ℓ} where
  pub record Instance (M : Type ℓ) : Type ℓ where
    pub resource_version : String
    pub manager : M
    pub stop_func : ℕ

  pub record Store (M : Type ℓ) : Type ℓ where
    pub store : Entries (Instance M)
    pub stopped : List ℕ

  module _ {M : Type ℓ} where
    abbrev pub new_store : Store M
    new_store = record { store = []; stopped = [] }

    -- The manager of an entry, and whether it runs with the wanted version of the Secret.
    manager_at : String → Option (Instance M) → Option M × Bool
    manager_at rv none = (none, false)
    manager_at rv (some v) =
        if v.resource_version != rv then (some v.manager, false) else (some v.manager, true)

    unfoldable pub get : String → String → Store M → Option M × Bool
    unfolding manager_at
    get name rv s = manager_at rv (lookup name s.store)

    stop_at : String → Option (Instance M) → Store M → Bool × Store M
    stop_at name none s = (false, s)
    stop_at name (some v) s =
        (true, record { store = erase name s.store; stopped = v.stop_func ∷ s.stopped })

    unfoldable pub stop : String → Store M → Bool × Store M
    unfolding stop_at
    stop name s = stop_at name (lookup name s.store) s

    unfoldable pub add : String → String → M → ℕ → Store M → Bool × Store M
    add name rv manager cancel s = if is_some (lookup name s.store) then (false, s) else (
      true,
      record s {
        store =
            insert name (record { resource_version = rv; manager = manager; stop_func = cancel })
              s.store;
      },
    )
