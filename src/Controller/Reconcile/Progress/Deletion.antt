-- ===== src/Controller/Reconcile/Progress/Deletion.antt =====
-- A pass over an object that is being deleted.
use cluster_api_control_plan.Base.{
  ◌≡◌, ◌∙◌, arith, List, ◌∷◌, Option, some, false, true, ℕ, contains,
}
use mathlib.Core.Path.{subst, subst⁻¹}
use cluster_api_control_plan.Errors.{ok}
use cluster_api_control_plan.Objects.{
  Foreign, KamajiControlPlane, Cluster, OwnerReference, ObjectKey,
}
use cluster_api_control_plan.Kube.{Kube}
use cluster_api_control_plan.ExternalCluster.Names.{generate_remote_tenant_control_plane_names}
use cluster_api_control_plan.Controller.Run.{Reconciler}
use cluster_api_control_plan.Controller.ExternalReference.Laws.{IsExtracted-extract_remote_client}
use cluster_api_control_plan.Controller.Finalizer.{
  ecr_finalizer, with_finalizers, remove_attempt, remove_finalizer, delete_remote_tenant,
  handle_deletion,
}
use cluster_api_control_plan.Controller.Finalizer.Laws.{SetLaws}
use cluster_api_control_plan.Controller.Finalizer.Removal.{remote_key, Removal, ok-Removal}
use cluster_api_control_plan.Controller.ExternalReference.{extract_remote_client}
use cluster_api_control_plan.Controller.Reconcile.Chain.{Outcome, finished}
use cluster_api_control_plan.Controller.Reconcile.Main.{
  reconcile, reconcile_object, reconcile_cluster,
}
use cluster_api_control_plan.Controller.Reconcile.Progress.{
  Fixed, IsFit, IsHosted, IsServed, Answers,
}
use cluster_api_control_plan.Controller.Reconcile.Progress.Chain.{Retries-ok}
use cluster_api_control_plan.Controller.Reconcile.Progress.Updates.{IsHealthy, read-own}
use cluster_api_control_plan.Controller.Reconcile.Progress.Remote.{extracted, finalizers-IsFit}

module _ {F : Foreign} (K : Kube F) (a : Fixed F) {Good : K.World → Type 0}
    {IsFree : List OwnerReference → Type 0} {cluster : Cluster} {remote : Option K.Client}
    (v : IsServed K a Good remote IsFree cluster) (L : SetLaws K) where
  remove_attempt-ok :
      (s : KamajiControlPlane F × K.World)
      → IsHealthy K a v s
      → (s' : KamajiControlPlane F × K.World) × (remove_attempt K s ≡ (ok tt, s')) × Unit {0}
  unfolding remove_attempt
  remove_attempt-ok (kcp, w) (good, i) =
      let (fresh, w1, e1, i1, good1) = read-own K a v kcp w good i in
      let set = K.set_delete (K.new_set fresh.meta.finalizers) ecr_finalizer in
      let (answer, w2, e2, i2, good2) =
        v.updates w1 (with_finalizers K set fresh) good1 (finalizers-IsFit K a set i1) in
      ((answer, w2), ground (arith, e1, e2), tt)

  -- The calls that have taken the finalizer off.
  remove_finalizer-ok :
      (kcp : KamajiControlPlane F) (w : K.World)
      → Good w
      → IsFit K a kcp
      → (w' : K.World) × (remove_finalizer K kcp w ≡ (ok tt, w'))
        × ((answer : KamajiControlPlane F) × Removal K a.key w (some answer) w')
  unfolding remove_finalizer
  remove_finalizer-ok kcp w good i =
      let runs = v.retries (KamajiControlPlane F × K.World) (remove_attempt K) (kcp, w) in
      let out = K.retry_on_conflict (KamajiControlPlane F × K.World) (remove_attempt K) (kcp, w) in
      let (s', e, _) = Retries-ok remove_attempt-ok runs (good, i) in
      (
        out.1.1,
        ground (arith, e),
        (
          out.1.0,
          subst (λ (k : ObjectKey). Removal K k w (some out.1.0) out.1.1) i.has_key
              (ok-Removal K L runs (ground (arith, e))),
        ),
      )

  module _ (r : Reconciler K) {client : K.Client} (h : IsHosted K a Good r client) where
    -- What a pass has done that deletes an object from one world to another: it got the client, had
    -- the TenantControlPlane deleted, and then took the finalizer off the object.
    pub record IsReleased (kcp : KamajiControlPlane F) (w w' : K.World) : Type 0 where
      pub before : K.World
      pub after : K.World
      pub answer : KamajiControlPlane F
      pub is_extracted : extract_remote_client K r kcp w ≡ (ok client, before)
      pub is_deleted : K.delete_tenant client (remote_key kcp h.ref) before ≡ (ok tt, after)
      pub is_freed : Removal K a.key after (some answer) w'

    handle_deletion-IsReleased :
        (kcp : KamajiControlPlane F) (w : K.World)
        → Good w
        → IsFit K a kcp
        → contains ecr_finalizer kcp.meta.finalizers ≡ true
        → ((w : K.World)
            → Good w
            → Answers K a Good (K.delete_tenant client (remote_key kcp h.ref) w) (λ _. Unit))
        → (w' : K.World) × (handle_deletion K r kcp w ≡ (ok tt, w')) × IsReleased kcp w w'
    unfolding handle_deletion delete_remote_tenant generate_remote_tenant_control_plane_names
    handle_deletion-IsReleased kcp w good i held deletes =
        let refers : kcp.spec.deployment.external_cluster_reference ≡ some h.ref =
          i.has_reference ∙ h.refers in
        let (w1, x, good1) = extracted K a r h kcp w good i in
        let (u, w2, e2, _, good2) = deletes w1 good1 in
        let (w3, e3, (answer, freed)) = remove_finalizer-ok kcp w2 good2 i in
        (
          w3,
          ground (
            arith,
            refers,
            held,
            L.has-new kcp.meta.finalizers ecr_finalizer,
            IsExtracted-extract_remote_client K r kcp w x,
            e2,
            e3,
          ),
          record {
            before = w1;
            after = w2;
            answer = answer;
            is_extracted = IsExtracted-extract_remote_client K r kcp w x;
            is_deleted = e2;
            is_freed = freed;
          },
        )

    -- One pass is enough for a deletion. If the servers answer as described, and another cluster, for
    -- which the store has a manager, deletes the TenantControlPlane when it is asked to, then
    -- `Reconcile` of an object that is being deleted, has the finalizer and is not paused reports
    -- success with nothing to be enqueued again. After it has read the Cluster, the pass gets the
    -- client of that other cluster and has the TenantControlPlane deleted there; the calls from that
    -- deletion to the end of the pass end with the server's acceptance of the object as it was read
    -- again, with all its finalizers but that of the program.
    pub reconcile-IsReleased :
        (w : K.World) {kcp : KamajiControlPlane F} {w1 w2 : K.World} {owner : OwnerReference}
        {owners : List OwnerReference} {time : ℕ}
        → K.get_kcp a.key w ≡ (ok kcp, w1)
        → IsFit K a kcp
        → kcp.meta.owner_references ≡ owner ∷ owners
        → K.get_cluster (record { namespace = kcp.meta.namespace; name = owner.name }) w1
          ≡ (ok cluster, w2)
        → Good w2
        → K.is_paused cluster kcp ≡ false
        → kcp.meta.deletion_timestamp ≡ some time
        → contains ecr_finalizer kcp.meta.finalizers ≡ true
        → ((w : K.World)
            → Good w
            → Answers K a Good (K.delete_tenant client (remote_key kcp h.ref) w) (λ _. Unit))
        → ((reconcile K r a.key w).0 ≡ finished) × IsReleased kcp w2 (reconcile K r a.key w).1
    unfolding reconcile reconcile_object reconcile_cluster
    reconcile-IsReleased w {kcp} {w1} {w2} read i owned found good running leaves held deletes =
        let (w3, e, released) = handle_deletion-IsReleased kcp w2 good i held deletes in
        let same : reconcile K r a.key w ≡ (finished, w3) =
          ground (arith, read, owned, found, running, leaves, e) in
        (
          ground (arith, same),
          subst⁻¹ (λ (out : Outcome × K.World). IsReleased kcp w2 out.1) same released,
        )
