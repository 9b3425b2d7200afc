-- ===== src/Controller/Managers.antt =====
-- controllers/externalclusterreference_controller.go: `ExternalClusterReferenceReconciler`, which
-- keeps a running manager for each entry of a Secret that a KamajiControlPlane refers to.
mod Loading
pub mod References
pub mod Laws
pub mod Frame
pub mod Calm
pub mod Stability
pub mod Success
pub mod Service
pub mod System
use cluster_api_control_plan.Base.{
  ℕ, String, Bool, true, false, Option, none, some, List, [], ◌∷◌, lookup, entries, if◌then◌else◌,
}
use cluster_api_control_plan.GoNet.{split}
use cluster_api_control_plan.Errors.{Error, Result, ok, err, index_out_of_range, is_not_found}
use cluster_api_control_plan.Objects.{Foreign, Secret, ObjectKey}
use cluster_api_control_plan.Kube.{Kube}
use cluster_api_control_plan.ExternalCluster.Names.{generate_key_name_from_secret}
use cluster_api_control_plan.ExternalCluster.Store.{Store, get, stop, add}
use cluster_api_control_plan.Controller.ExternalReference.{value_or_nil}
use cluster_api_control_plan.Controller.Push.{setup_push}

-- strings.Split(key, "/")[2]
abbrev pub third : List String → Result String
third (a ∷ b ∷ c ∷ rest) = ok c
third _ = err index_out_of_range

-- indexers.ExternalClusterReferenceKamajiControlPlaneField
abbrev pub kamaji_by_key_field : String
kamaji_by_key_field = "externalClusterReferenceKamajiControlPlane"

-- The world, the store, and the managers that goroutines have been told to start.
pub record Process {F : Foreign} (K : Kube F) : Type 0 where
  pub world : K.World
  pub store : Store K.Manager
  pub starting : List (String × K.Manager × ℕ)

module _ {F : Foreign} (K : Kube F) where
  abbrev pub on_store : (Store K.Manager → Bool × Store K.Manager) → Process K → Process K
  on_store f s = record s { store = (f s.store).1 }

  -- len(kcpList.Items) == 0
  abbrev pub has_none : {A : Type 0} → Result (List A) → Bool
  has_none (ok []) = true
  has_none _ = false

  abbrev pub with_key : String → Result (List String) → Result (List String)
  with_key key (err e) = err e
  with_key key (ok keys) = ok (key ∷ keys)

  abbrev pub keep : {A : Type 0} → String → List A → Result (List String) → Result (List String)
  keep key [] rest = rest
  keep key (kcp ∷ kcps) rest = with_key key rest

  -- The first loop: the keys that are referenced; the managers of the others are stopped.
  unfoldable pub referenced_keys : List String → Process K → Result (List String) × Process K
  referenced_keys [] s = (ok [], s)
  referenced_keys (key ∷ keys) s =
      let (found, w1) = K.list_kcps kamaji_by_key_field key s.world in
      let s1 = record s { world = w1 } in
      let (rest, s2) =
        referenced_keys keys (if has_none found then on_store (stop key) s1 else s1) in
      elim found [ err e ↦ (err e, s1) | ok kcps ↦ (keep key kcps rest, s2) ]

  -- A manager for an entry, up to its set-up.
  unfoldable pub make_manager : Secret → String → K.World → Result K.Manager × K.World
  make_manager secret key w = elim (third (split b'/' key)) [
    | err e ↦ (err e, w)
    | ok name ↦ elim (K.rest_config (value_or_nil (lookup name (entries secret.contents)))) [
      | err e ↦ (err e, w)
      | ok config ↦
          let (made, w1) = K.new_manager config w in
          elim made [
            | err e ↦ (err e, w1)
            | ok manager ↦
                let (r, w2) = setup_push K manager w1 in
                elim r [ err e ↦ (err e, w2) | ok u ↦ (ok manager, w2) ]
          ]
    ]
  ]

  -- One turn of the second loop. The answers of `Stop` and of `Add` are only logged or ignored.
  unfoldable pub load_key : Secret → String → Process K → Result (Unit {0}) × Process K
  load_key secret key s =
      if (get key secret.meta.resource_version s.store).1
      then (ok tt, s)
      else let s1 = on_store (stop key) s in
        let (made, w1) = make_manager secret key s1.world in
        elim made [
          | err e ↦ (err e, record s1 { world = w1 })
          | ok manager ↦
              let (cancel, w2) = K.with_cancel w1 in
              (
                ok tt,
                on_store (add key secret.meta.resource_version manager cancel)
                    (record s1 { world = w2; starting = (key, manager, cancel) ∷ s1.starting }),
              )
        ]

  unfoldable pub load_keys : Secret → List String → Process K → Result (Unit {0}) × Process K
  load_keys secret [] s = (ok tt, s)
  load_keys secret (key ∷ keys) s =
      let (r, s1) = load_key secret key s in
      let rest = load_keys secret keys s1 in elim r [ err e ↦ (err e, s1) | ok u ↦ rest ]

  unfoldable pub reconcile_found : Secret → Process K → Result (Unit {0}) × Process K
  reconcile_found secret s =
      let (keys, s1) = referenced_keys (generate_key_name_from_secret secret) s in
      elim keys [ err e ↦ (err e, s1) | ok names ↦ load_keys secret names s1 ]

  unfoldable pub reconcile_secret : ObjectKey → Process K → Result (Unit {0}) × Process K
  reconcile_secret request s =
      let (found, w1) = K.get_secret K.local request s.world in
      let s1 = record s { world = w1 } in
      elim found [
        | err e ↦ if is_not_found e then (ok tt, s1) else (err e, s1)
        | ok secret ↦ reconcile_found secret s1
      ]

  -- startManager, when `Start` has returned an error.
  unfoldable pub manager_failed : String → Process K → Process K
  manager_failed name s = on_store (stop name) s
