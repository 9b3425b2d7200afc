-- ===== src/Controller/Finalizer/Laws.antt =====
-- Which finalizers are sent to the server, and what becomes of a deletion.
use cluster_api_control_plan.ExternalCluster.Names.{generate_remote_tenant_control_plane_names}
use cluster_api_control_plan.Controller.Finalizer.{
  delete_remote_tenant, handle_deletion, remove_finalizer, handle_finalizer, ecr_finalizer,
  with_finalizers, add_attempt, remove_attempt,
}
use cluster_api_control_plan.Controller.Finalizer.Removal.{
  remote_key, Removal, ok-Removal, not_found-Removal,
}
use mathlib.Core.Path.{subst}
use cluster_api_control_plan.Controller.ExternalReference.{extract_remote_client}
use cluster_api_control_plan.Base.{
  is_none, true, ◌⊎◌, Bool-cases, String, ◌==◌, ◌≡◌, refl, ◌∙◌, Bool, ◌||◌, not, contains, inl, inr,
  arith, Option, some, none, Option-cases,
}
use cluster_api_control_plan.Controller.Run.{Reconciler}
use cluster_api_control_plan.Errors.{is_not_found, Error, ok, err, Result-cases}
use cluster_api_control_plan.Objects.{
  Foreign, KamajiControlPlane, ObjectKey, ExternalClusterReference, key_of,
}
use cluster_api_control_plan.Kube.{Kube}
use cluster_api_control_plan.Kube.Laws.{IsLawfulSets, IsLawfulRetry, Retries-final}

module _ {F : Foreign} (K : Kube F) where
  abbrev pub SetLaws : Type 0
  SetLaws = IsLawfulSets K.new_set K.set_has K.set_insert K.set_delete K.unsorted_list

  -- An update that the server accepted: the object that was read, the one that was sent, and which
  -- finalizers that one has.
  pub record IsSent (finalizers : KamajiControlPlane F → String → Bool)
      (answer : KamajiControlPlane F) (w' : K.World) : Type 0 where
    pub key : ObjectKey
    pub w0 : K.World
    pub w1 : K.World
    pub fresh : KamajiControlPlane F
    pub sent : KamajiControlPlane F
    pub is_read : K.get_kcp key w0 ≡ (ok fresh, w1)
    pub spec_kept : sent.spec ≡ fresh.spec
    pub finalizers_sent : (x : String) → contains x sent.meta.finalizers ≡ finalizers fresh x
    pub is_accepted : K.update_kcp sent w1 ≡ (ok answer, w')

  -- The set before or after the insertion holds what `kcp` had, and perhaps the new finalizer.
  abbrev Holds : KamajiControlPlane F → K.StringSet × KamajiControlPlane F × K.World → Type 0
  Holds kcp s =
      (x : String)
      → (ecr_finalizer == x || K.set_has s.0 x)
        ≡ (ecr_finalizer == x || contains x kcp.meta.finalizers)

  add_attempt-Holds :
      (L : SetLaws) (kcp : KamajiControlPlane F)
      (s s' : K.StringSet × KamajiControlPlane F × K.World) (e : Error)
      → Holds kcp s
      → add_attempt K s ≡ (err e, s')
      → Holds kcp s'
  unfolding add_attempt
  add_attempt-Holds L kcp (set, k, w) s' e i h x =
      let (r, w1) = K.get_kcp (key_of k.meta) w in
      elim (Result-cases r) [
        | inr (e1, q) ↦ ground (arith, i x)
        | inl (fresh, q) ↦ ground (arith, i x, L.has-add set ecr_finalizer x)
      ]

  add_attempt-IsSent :
      (L : SetLaws) (kcp : KamajiControlPlane F) (s : K.StringSet × KamajiControlPlane F × K.World)
      {set' : K.StringSet} {answer : KamajiControlPlane F} {w' : K.World}
      → Holds kcp s
      → add_attempt K s ≡ (ok tt, (set', answer, w'))
      → IsSent (λ fresh x. ecr_finalizer == x || contains x kcp.meta.finalizers) answer w'
  unfolding add_attempt
  add_attempt-IsSent L kcp (set, k, w) i h =
      let (r, w1) = K.get_kcp (key_of k.meta) w in
      elim (Result-cases r) [
        | inr (e1, q) ↦ ground arith
        | inl (fresh, q) ↦ record {
          key = key_of k.meta;
          w0 = w;
          w1 = w1;
          fresh = fresh;
          sent = with_finalizers K (K.set_insert set ecr_finalizer) fresh;
          is_read = ground arith;
          spec_kept = refl;
          finalizers_sent = λ x. rw (L.contains-members, L.has-add) (i x);
          is_accepted = ground arith;
        }
      ]

  -- When `handleFinalizer` succeeds, either the object had the finalizer and nothing was sent, or
  -- the server has accepted an object with the specification that was read last and with exactly
  -- these finalizers: the new one, and those that the object had before that read.
  pub handle_finalizer-IsSent :
      (L : SetLaws)
      → IsLawfulRetry K.retry_on_conflict
      → (kcp : KamajiControlPlane F) (w : K.World) {answer : KamajiControlPlane F} {w' : K.World}
      → handle_finalizer K kcp w ≡ (ok tt, (answer, w'))
      → ((contains ecr_finalizer kcp.meta.finalizers ≡ true) × (answer ≡ kcp) × (w' ≡ w))
        ⊎ IsSent (λ fresh x. ecr_finalizer == x || contains x kcp.meta.finalizers) answer w'
  unfolding handle_finalizer
  handle_finalizer-IsSent L retry kcp w h =
      elim (Bool-cases (K.set_has (K.new_set kcp.meta.finalizers) ecr_finalizer)) [
        | inl has ↦ inl (
          ground (arith, L.has-new kcp.meta.finalizers ecr_finalizer),
          ground arith,
          ground arith,
        )
        | inr lacks ↦
            let s0 : K.StringSet × KamajiControlPlane F × K.World =
              (K.new_set kcp.meta.finalizers, kcp, w) in
            let (s, i, run) =
              Retries-final (Holds kcp) (add_attempt-Holds L kcp)
                (retry (K.StringSet × KamajiControlPlane F × K.World) (add_attempt K) s0)
                (λ x. rw L.has-new) in
            let out =
              K.retry_on_conflict (K.StringSet × KamajiControlPlane F × K.World) (add_attempt K)
                s0 in
            inr (add_attempt-IsSent L kcp s {set' = out.1.0} i (run ∙ ground arith))
      ]

  -- What a deletion with the client of another cluster, from one world to another, has done when it
  -- reports success.
  pub data IsDeleted (kcp : KamajiControlPlane F) (client : K.Client) (w w' : K.World)
      : Type 0 where
    -- The TenantControlPlane was deleted, and from then on the finalizer was taken off the object, or
    -- the object was found to be gone.
    deleted :
        (ref : ExternalClusterReference) (w1 : K.World) (answer : Option (KamajiControlPlane F))
        → kcp.spec.deployment.external_cluster_reference ≡ some ref
        → K.delete_tenant client (remote_key kcp ref) w ≡ (ok tt, w1)
        → Removal K (key_of kcp.meta) w1 answer w'
        → IsDeleted kcp client w w'
    -- There was no TenantControlPlane to delete, and nothing was sent after that answer.
    already_gone :
        (ref : ExternalClusterReference) (e : Error)
        → kcp.spec.deployment.external_cluster_reference ≡ some ref
        → K.delete_tenant client (remote_key kcp ref) w ≡ (err e, w')
        → is_not_found e ≡ true
        → IsDeleted kcp client w w'

  remove_finalizer-Removal :
      (L : SetLaws)
      → IsLawfulRetry K.retry_on_conflict
      → (kcp : KamajiControlPlane F) (w : K.World) {w' : K.World}
      → remove_finalizer K kcp w ≡ (ok tt, w')
      → (answer : Option (KamajiControlPlane F)) × Removal K (key_of kcp.meta) w answer w'
  unfolding remove_finalizer
  remove_finalizer-Removal L retry kcp w {w'} h =
      let runs = retry (KamajiControlPlane F × K.World) (remove_attempt K) (kcp, w) in
      let out = K.retry_on_conflict (KamajiControlPlane F × K.World) (remove_attempt K) (kcp, w) in
      elim (Result-cases out.0) [
        | inl (u, q) ↦
            let same : out.1.1 ≡ w' = ground arith in
            (
              some out.1.0,
              subst (Removal K (key_of kcp.meta) w (some out.1.0)) same (ok-Removal K L runs q),
            )
        | inr (e, q) ↦
            let same : out.1.1 ≡ w' = ground arith in
            (
              none,
              subst (Removal K (key_of kcp.meta) w none) same
                  (not_found-Removal K L runs e q (ground arith)),
            )
      ]

  delete_remote_tenant-IsDeleted :
      (L : SetLaws)
      → IsLawfulRetry K.retry_on_conflict
      → (kcp : KamajiControlPlane F) (client : K.Client) (w : K.World) {w' : K.World}
      → delete_remote_tenant K kcp client w ≡ (ok tt, w')
      → IsDeleted kcp client w w'
  unfolding delete_remote_tenant generate_remote_tenant_control_plane_names
  delete_remote_tenant-IsDeleted L retry kcp client w h =
      elim (Option-cases kcp.spec.deployment.external_cluster_reference) [
        | inl q ↦ ground arith
        | inr (ref, q) ↦
            let (r, w1) = K.delete_tenant client (remote_key kcp ref) w in
            elim (Result-cases r) [
              | inr (e, p) ↦ already_gone ref e q (ground arith) (ground arith)
              | inl (u, p) ↦
                  let (answer, removal) = remove_finalizer-Removal L retry kcp w1 (ground arith) in
                  deleted ref w1 answer q (ground arith) removal
            ]
      ]

  -- A deletion that reports success had nothing to delete and left the world as it was, or it got
  -- the client of another cluster and then asked it to delete the TenantControlPlane. If that was
  -- done, then, in the calls from there to the end, the server accepted the object as it was last
  -- read, with all its finalizers but that of the program, or answered that there is no such object,
  -- after conflicts at most. If there was no such TenantControlPlane, that answer was the end.
  pub handle_deletion-IsDeleted :
      (L : SetLaws)
      → IsLawfulRetry K.retry_on_conflict
      → (r : Reconciler K) (kcp : KamajiControlPlane F) (w : K.World) {w' : K.World}
      → handle_deletion K r kcp w ≡ (ok tt, w')
      → (((not (contains ecr_finalizer kcp.meta.finalizers)
              || is_none kcp.spec.deployment.external_cluster_reference)
            ≡ true)
          × (w' ≡ w))
        ⊎ ((client : K.Client) × (w1 : K.World) × (extract_remote_client K r kcp w
              ≡ (ok client, w1))
            × IsDeleted kcp client w1 w')
  unfolding handle_deletion
  handle_deletion-IsDeleted L retry r kcp w h =
      elim (Bool-cases (
        not (K.set_has (K.new_set kcp.meta.finalizers) ecr_finalizer)
        || is_none kcp.spec.deployment.external_cluster_reference)) [
          | inl g ↦ inl (ground (arith, L.has-new kcp.meta.finalizers ecr_finalizer), ground arith)
          | inr g ↦
              let (found, w1) = extract_remote_client K r kcp w in
              elim (Result-cases found) [
                | inr (e, q) ↦ ground arith
                | inl (client, q) ↦ inr (
                  client,
                  w1,
                  ground arith,
                  delete_remote_tenant-IsDeleted L retry kcp client w1 (ground arith),
                )
              ]
        ]
