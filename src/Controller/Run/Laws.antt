-- ===== src/Controller/Run/Laws.antt =====
-- What the server has accepted when `updateKamajiControlPlaneStatus` succeeds.
use cluster_api_control_plan.Base.{◌≡◌, ◌∙◌, inl, inr, arith}
use cluster_api_control_plan.Errors.{ok, Result-cases}
use cluster_api_control_plan.Objects.{
  Foreign, KamajiControlPlane, KamajiControlPlaneStatus, ObjectKey, key_of,
}
use cluster_api_control_plan.Kube.{Kube}
use cluster_api_control_plan.Kube.Laws.{IsLawfulRetry, Retries-final}
use cluster_api_control_plan.Controller.Run.{
  Run, status_attempt, update_kamaji_control_plane_status,
}

module _ {F : Foreign} (K : Kube F) where
  -- The object that was read last, and its update.
  pub record IsUpdated (modifier : KamajiControlPlaneStatus → KamajiControlPlaneStatus)
      (answer : KamajiControlPlane F) (w' : K.World) : Type 0 where
    pub key : ObjectKey
    pub w0 : K.World
    pub w1 : K.World
    pub fresh : KamajiControlPlane F
    pub is_read : K.get_kcp key w0 ≡ (ok fresh, w1)
    pub is_accepted :
        K.update_kcp_status (record fresh { status = modifier fresh.status }) w1 ≡ (ok answer, w')

  status_attempt-IsUpdated :
      (modifier : KamajiControlPlaneStatus → KamajiControlPlaneStatus) (kcp : KamajiControlPlane F)
      (w : K.World) {answer : KamajiControlPlane F} {w' : K.World}
      → status_attempt K modifier (kcp, w) ≡ (ok tt, (answer, w'))
      → IsUpdated modifier answer w'
  unfolding status_attempt
  status_attempt-IsUpdated modifier kcp w h =
      let (r, w1) = K.get_kcp (key_of kcp.meta) w in
      elim (Result-cases r) [
        | inr (e, q) ↦ ground arith
        | inl (fresh, q) ↦ record {
          key = key_of kcp.meta;
          w0 = w;
          w1 = w1;
          fresh = fresh;
          is_read = ground arith;
          is_accepted = ground arith;
        }
      ]

  -- When it succeeds, the server has accepted the object that was read last with only its status
  -- changed, by the modification; what the server answered is the object from then on, and the local
  -- conditions are as they were.
  pub update_kamaji_control_plane_status-IsUpdated :
      IsLawfulRetry K.retry_on_conflict
      → (modifier : KamajiControlPlaneStatus → KamajiControlPlaneStatus) (run : Run K)
        {run' : Run K}
      → update_kamaji_control_plane_status K modifier run ≡ (ok tt, run')
      → IsUpdated modifier run'.kcp run'.world × (run'.conditions ≡ run.conditions)
  unfolding update_kamaji_control_plane_status
  update_kamaji_control_plane_status-IsUpdated retry modifier run {run'} h =
      let (s, _, once) =
        Retries-final (λ _. Unit {0}) (λ _ _ _ _ _. tt)
          (retry (KamajiControlPlane F × K.World) (status_attempt K modifier) (run.kcp, run.world))
          tt in
      let out =
        K.retry_on_conflict (KamajiControlPlane F × K.World) (status_attempt K modifier)
          (run.kcp, run.world) in
      elim (Result-cases out.0) [
        | inr (e, q) ↦ ground arith
        | inl (u, q) ↦
            (status_attempt-IsUpdated modifier s.0 s.1 (once ∙ ground arith), ground arith)
      ]
