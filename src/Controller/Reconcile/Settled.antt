-- ===== src/Controller/Reconcile/Settled.antt =====
-- When `Reconcile` reports success, whatever the state of the object.
use cluster_api_control_plan.Base.{
  ℕ, ◌≡◌, refl, true, false, none, some, List, [], ◌∷◌, ◌⊎◌, inl, inr, Bool-cases, Option-cases,
  arith,
}
use cluster_api_control_plan.Errors.{Error, ok, err, is_not_found, Result-cases}
use cluster_api_control_plan.Objects.{
  Foreign, KamajiControlPlane, Cluster, ObjectKey, OwnerReference,
}
use cluster_api_control_plan.Kube.{Kube}
use cluster_api_control_plan.Controller.Run.{Reconciler}
use cluster_api_control_plan.Controller.Finalizer.{handle_deletion}
use cluster_api_control_plan.Controller.Reconcile.Chain.{finished}
use cluster_api_control_plan.Controller.Reconcile.Main.{
  steps, reconcile_cluster, reconcile_object, reconcile,
}
use cluster_api_control_plan.Controller.Reconcile.Completion.{IsComplete}
use cluster_api_control_plan.Controller.Reconcile.Success.{
  IsGone, start, reconcile_normal-IsComplete,
}

module _ {F : Foreign} (K : Kube F) where
  -- The object and the Cluster that its first owner names were read.
  pub record IsFound (request : ObjectKey) (w : K.World) (kcp : KamajiControlPlane F)
      (cluster : Cluster) (w2 : K.World) : Type 0 where
    pub owner : OwnerReference
    pub owners : List OwnerReference
    pub w1 : K.World
    pub is_read : K.get_kcp request w ≡ (ok kcp, w1)
    pub is_owned : kcp.meta.owner_references ≡ owner ∷ owners
    pub has_cluster :
        K.get_cluster (record { namespace = kcp.meta.namespace; name = owner.name }) w1
        ≡ (ok cluster, w2)

  -- The reasons for a success.
  pub data Settled (r : Reconciler K) (request : ObjectKey) (w : K.World) : Type 0 where
    no_object :
        (e : Error) → (K.get_kcp request w).0 ≡ err e → is_not_found e ≡ true → Settled r request w
    no_owner :
        (kcp : KamajiControlPlane F)
        → (K.get_kcp request w).0 ≡ ok kcp
        → kcp.meta.owner_references ≡ []
        → Settled r request w
    no_cluster :
        (kcp : KamajiControlPlane F) (owner : OwnerReference) (owners : List OwnerReference)
        (w1 : K.World) (e : Error)
        → K.get_kcp request w ≡ (ok kcp, w1)
        → kcp.meta.owner_references ≡ owner ∷ owners
        → (K.get_cluster (record { namespace = kcp.meta.namespace; name = owner.name }) w1).0
          ≡ err e
        → is_not_found e ≡ true
        → Settled r request w
    pausing :
        (kcp : KamajiControlPlane F) (cluster : Cluster) (w2 : K.World)
        → IsFound request w kcp cluster w2
        → K.is_paused cluster kcp ≡ true
        → Settled r request w
    deleted :
        (kcp : KamajiControlPlane F) (cluster : Cluster) (w2 : K.World) (time : ℕ)
        → IsFound request w kcp cluster w2
        → K.is_paused cluster kcp ≡ false
        → kcp.meta.deletion_timestamp ≡ some time
        → (handle_deletion K r kcp w2).0 ≡ ok tt
        → Settled r request w
    completed :
        (kcp : KamajiControlPlane F) (cluster : Cluster) (w2 : K.World)
        → IsFound request w kcp cluster w2
        → K.is_paused cluster kcp ≡ false
        → kcp.meta.deletion_timestamp ≡ none
        → IsComplete K r cluster (start K kcp w2) (steps K r cluster (start K kcp w2)).1
          ⊎ IsGone K r cluster (start K kcp w2)
        → Settled r request w

  reconcile_cluster-Settled :
      (r : Reconciler K) (request : ObjectKey) (w : K.World) (kcp : KamajiControlPlane F)
      (cluster : Cluster) (w2 : K.World)
      → IsFound request w kcp cluster w2
      → (reconcile_cluster K r cluster kcp w2).0 ≡ finished
      → Settled r request w
  unfolding reconcile_cluster
  reconcile_cluster-Settled r request w kcp cluster w2 i h =
      elim (Bool-cases (K.is_paused cluster kcp)) [
        | inl y ↦ pausing kcp cluster w2 i y
        | inr n ↦ elim (Option-cases kcp.meta.deletion_timestamp) [
          | inr (time, q) ↦ elim (Result-cases (handle_deletion K r kcp w2).0) [
            | inl (u, p) ↦ deleted kcp cluster w2 time i n q p
            | inr (e, p) ↦ ground arith
          ]
          | inl q ↦
              completed kcp cluster w2 i n q
                (reconcile_normal-IsComplete K r cluster kcp w2 (ground arith))
        ]
      ]

  reconcile_object-Settled :
      (r : Reconciler K) (request : ObjectKey) (w : K.World) (kcp : KamajiControlPlane F)
      (owners : List OwnerReference) (w1 : K.World)
      → K.get_kcp request w ≡ (ok kcp, w1)
      → kcp.meta.owner_references ≡ owners
      → (reconcile_object K r kcp owners w1).0 ≡ finished
      → Settled r request w
  unfolding reconcile_object
  reconcile_object-Settled r request w kcp [] w1 q o h = no_owner kcp (ground (arith, q)) o
  reconcile_object-Settled r request w kcp (owner ∷ owners) w1 q o h =
      let (found, w2) =
        K.get_cluster (record { namespace = kcp.meta.namespace; name = owner.name }) w1 in
      elim (Result-cases found) [
        | inr (e, p) ↦ no_cluster kcp owner owners w1 e q o p (ground arith)
        | inl (cluster, p) ↦
            reconcile_cluster-Settled r request w kcp cluster w2
              (record {
                owner = owner;
                owners = owners;
                w1 = w1;
                is_read = q;
                is_owned = o;
                has_cluster = ground arith;
              })
              (ground arith)
      ]

  -- Success, with nothing to be enqueued again, has one of these reasons: the object is gone or has
  -- no owner; its Cluster is gone; the two are paused; the deletion has succeeded; or the steps got
  -- to their end, or the Cluster was gone when it was read again.
  pub reconcile-Settled :
      (r : Reconciler K) (request : ObjectKey) (w : K.World)
      → (reconcile K r request w).0 ≡ finished
      → Settled r request w
  unfolding reconcile
  reconcile-Settled r request w h =
      let (found, w1) = K.get_kcp request w in
      elim (Result-cases found) [
        | inr (e, q) ↦ no_object e q (ground arith)
        | inl (kcp, q) ↦
            reconcile_object-Settled r request w kcp kcp.meta.owner_references w1 (ground arith)
              refl (ground arith)
      ]
