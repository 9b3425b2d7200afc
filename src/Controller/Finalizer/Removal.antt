-- ===== src/Controller/Finalizer/Removal.antt =====
-- How the finalizer is taken off an object: the calls of `RetryOnConflict` in handleDeletion, one by
-- one.
use mathlib.Core.Path.{subst}
use cluster_api_control_plan.Base.{
  ◌≡◌, refl, ◌∙◌, String, true, Option, some, none, ◌==◌, ◌&&◌, not, contains, inl, inr, arith,
  ◌<>◌,
}
use cluster_api_control_plan.ExternalCluster.Names.{remote_tcp_prefix}
use cluster_api_control_plan.Errors.{
  Error, Result, ok, err, is_conflict, is_not_found, Result-cases,
}
use cluster_api_control_plan.Objects.{
  Foreign, KamajiControlPlane, ObjectKey, ExternalClusterReference, key_of,
}
use cluster_api_control_plan.Kube.{Kube}
use cluster_api_control_plan.Kube.Laws.{IsLawfulSets, Retries, last, again}
use cluster_api_control_plan.Controller.Finalizer.{ecr_finalizer, with_finalizers, remove_attempt}

-- The key of the TenantControlPlane of an object in another cluster.
abbrev pub remote_key : {F : Foreign} → KamajiControlPlane F → ExternalClusterReference → ObjectKey
remote_key kcp ref = record {
  namespace = ref.deployment_namespace;
  name = remote_tcp_prefix <> kcp.meta.uid;
}

module _ {F : Foreign} (K : Kube F) where
  -- An object as it was read, but for the program's finalizer, which it does not have.
  pub record IsFreed (fresh sent : KamajiControlPlane F) : Type 0 where
    pub kept :
        sent ≡ record fresh { meta = record fresh.meta { finalizers = sent.meta.finalizers } }
    pub finalizers_sent :
        (x : String)
        → contains x sent.meta.finalizers
          ≡ (not (ecr_finalizer == x) && contains x fresh.meta.finalizers)

  -- The calls from one world to another that take the finalizer off the object with a key, with the
  -- answer of the server; or, with none, that end when the object is gone.
  pub data Removal : ObjectKey → K.World → Option (KamajiControlPlane F) → K.World → Type 0 where
    accepted :
        {key : ObjectKey} {w w1 w' : K.World} (fresh sent answer : KamajiControlPlane F)
        → K.get_kcp key w ≡ (ok fresh, w1)
        → IsFreed fresh sent
        → K.update_kcp sent w1 ≡ (ok answer, w')
        → Removal key w (some answer) w'
    not_read :
        {key : ObjectKey} {w w' : K.World} (e : Error)
        → K.get_kcp key w ≡ (err e, w')
        → is_not_found e ≡ true
        → Removal key w none w'
    not_written :
        {key : ObjectKey} {w w1 w' : K.World} (fresh sent : KamajiControlPlane F) (e : Error)
        → K.get_kcp key w ≡ (ok fresh, w1)
        → IsFreed fresh sent
        → K.update_kcp sent w1 ≡ (err e, w')
        → is_not_found e ≡ true
        → Removal key w none w'
    read_again :
        {key : ObjectKey} {w w1 w' : K.World} {o : Option (KamajiControlPlane F)} (e : Error)
        → K.get_kcp key w ≡ (err e, w1)
        → is_conflict e ≡ true
        → Removal key w1 o w'
        → Removal key w o w'
    write_again :
        {key : ObjectKey} {w w1 w2 w' : K.World} {o : Option (KamajiControlPlane F)}
        (fresh sent : KamajiControlPlane F) (e : Error)
        → K.get_kcp key w ≡ (ok fresh, w1)
        → IsFreed fresh sent
        → K.update_kcp sent w1 ≡ (err e, w2)
        → is_conflict e ≡ true
        → Removal (key_of sent.meta) w2 o w'
        → Removal key w o w'

  module _ (L : IsLawfulSets K.new_set K.set_has K.set_insert K.set_delete K.unsorted_list) where
    abbrev freed : KamajiControlPlane F → KamajiControlPlane F
    freed fresh =
        with_finalizers K (K.set_delete (K.new_set fresh.meta.finalizers) ecr_finalizer) fresh

    freed-IsFreed : (fresh : KamajiControlPlane F) → IsFreed fresh (freed fresh)
    freed-IsFreed fresh = record {
      kept = refl;
      finalizers_sent = λ x. rw (L.contains-members, L.has-drop, L.has-new);
    }

    accepted-Removal :
        (kcp : KamajiControlPlane F) (w : K.World) {answer : KamajiControlPlane F} {w' : K.World}
        → remove_attempt K (kcp, w) ≡ (ok tt, (answer, w'))
        → Removal (key_of kcp.meta) w (some answer) w'
    unfolding remove_attempt
    accepted-Removal kcp w {answer} h = elim (Result-cases (K.get_kcp (key_of kcp.meta) w).0) [
      | inr (e, q) ↦ ground arith
      | inl (fresh, q) ↦
          accepted {w1 = (K.get_kcp (key_of kcp.meta) w).1} fresh (freed fresh) answer
            (ground arith) (freed-IsFreed fresh) (ground arith)
    ]

    gone-Removal :
        (kcp : KamajiControlPlane F) (w : K.World) {e : Error} {kcp' : KamajiControlPlane F}
        {w' : K.World}
        → remove_attempt K (kcp, w) ≡ (err e, (kcp', w'))
        → is_not_found e ≡ true
        → Removal (key_of kcp.meta) w none w'
    unfolding remove_attempt
    gone-Removal kcp w {e} h n = elim (Result-cases (K.get_kcp (key_of kcp.meta) w).0) [
      | inr (e1, q) ↦ not_read e (ground arith) n
      | inl (fresh, q) ↦
          not_written {w1 = (K.get_kcp (key_of kcp.meta) w).1} fresh (freed fresh) e (ground arith)
            (freed-IsFreed fresh) (ground arith) n
    ]

    again-Removal :
        (kcp : KamajiControlPlane F) (w : K.World) {e : Error} {kcp' : KamajiControlPlane F}
        {w1 w' : K.World} {o : Option (KamajiControlPlane F)}
        → remove_attempt K (kcp, w) ≡ (err e, (kcp', w1))
        → is_conflict e ≡ true
        → Removal (key_of kcp'.meta) w1 o w'
        → Removal (key_of kcp.meta) w o w'
    unfolding remove_attempt
    again-Removal kcp w {e} {kcp'} {w1} {w'} {o} h c more =
        elim (Result-cases (K.get_kcp (key_of kcp.meta) w).0) [
          | inr (e1, q) ↦
              let same : kcp' ≡ kcp = ground arith in
              read_again e (ground arith) c
                (subst (λ (k : KamajiControlPlane F). Removal (key_of k.meta) w1 o w') same more)
          | inl (fresh, q) ↦
              let same : kcp' ≡ freed fresh = ground arith in
              write_again {w1 = (K.get_kcp (key_of kcp.meta) w).1} fresh (freed fresh) e
                (ground arith) (freed-IsFreed fresh) (ground arith) c
                (subst (λ (k : KamajiControlPlane F). Removal (key_of k.meta) w1 o w') same more)
        ]

    pub ok-Removal :
        {s : KamajiControlPlane F × K.World}
        {out : Result (Unit {0}) × (KamajiControlPlane F × K.World)}
        → Retries (remove_attempt K) s out
        → out.0 ≡ ok tt
        → Removal (key_of s.0.meta) s.1 (some out.1.0) out.1.1
    ok-Removal (last s out run) h = accepted-Removal s.0 s.1 (run ∙ ground (arith, h))
    ok-Removal (again e s s' out run clash more) h =
        again-Removal s.0 s.1 run clash (ok-Removal more h)

    pub not_found-Removal :
        {s : KamajiControlPlane F × K.World}
        {out : Result (Unit {0}) × (KamajiControlPlane F × K.World)}
        → Retries (remove_attempt K) s out
        → (e : Error) → out.0 ≡ err e
        → is_not_found e ≡ true
        → Removal (key_of s.0.meta) s.1 none out.1.1
    not_found-Removal (last s out run) e h n =
        gone-Removal s.0 s.1 {e = e} {kcp' = out.1.0} {w' = out.1.1} (run ∙ ground (arith, h)) n
    not_found-Removal (again e1 s s' out run clash more) e h n =
        again-Removal s.0 s.1 run clash (not_found-Removal more e h n)
