-- ===== src/Controller/ClusterPatch/Endpoint/Publication.antt =====
-- What the server has accepted when `patchControlPlaneEndpoint` succeeds.
use cluster_api_control_plan.Base.{◌≡◌, ◌∙◌, String, inl, inr, arith}
use cluster_api_control_plan.Base.Int.{ℤ, int32}
use cluster_api_control_plan.Errors.{ok, Result-cases}
use cluster_api_control_plan.Objects.{Foreign, KamajiControlPlane, ObjectKey, key_of}
use cluster_api_control_plan.Kube.{Kube}
use cluster_api_control_plan.Kube.Laws.{IsLawfulRetry, Retries-final}
use cluster_api_control_plan.Controller.Run.{Run}
use cluster_api_control_plan.Controller.ClusterPatch.Endpoint.{
  control_plane_endpoint, endpoint_attempt, patch_control_plane_endpoint,
}

module _ {F : Foreign} (K : Kube F) where
  -- An update that the server accepted: the object as read, with this endpoint.
  pub record IsPublished (host : String) (port : ℤ) (answer : KamajiControlPlane F) (w' : K.World)
      : Type 0 where
    pub key : ObjectKey
    pub w0 : K.World
    pub w1 : K.World
    pub fresh : KamajiControlPlane F
    pub is_read : K.get_kcp key w0 ≡ (ok fresh, w1)
    pub is_accepted :
        K.update_kcp
          (record fresh {
            spec = record fresh.spec {
              control_plane_endpoint = record { host = host; port = int32 port };
            };
          })
          w1
        ≡ (ok answer, w')

  endpoint_attempt-IsPublished :
      (host : String) (port : ℤ) (kcp : KamajiControlPlane F) (w : K.World)
      {answer : KamajiControlPlane F} {w' : K.World}
      → endpoint_attempt K host port (kcp, w) ≡ (ok tt, (answer, w'))
      → IsPublished host port answer w'
  unfolding endpoint_attempt
  endpoint_attempt-IsPublished host port kcp w h =
      let (r, w1) = K.get_kcp (key_of kcp.meta) w in
      elim (Result-cases r) [
        | inr (e, q) ↦ ground arith
        | inl (fresh, q) ↦ record {
          key = key_of kcp.meta;
          w0 = w;
          w1 = w1;
          fresh = fresh;
          is_read = ground arith;
          is_accepted = ground arith;
        }
      ]

  -- When it succeeds, the server has accepted the object that was read last with only its endpoint
  -- changed, to the one that `controlPlaneEndpoint` chose for the object at the start, the port cut
  -- to 32 bits.
  pub patch_control_plane_endpoint-IsPublished :
      IsLawfulRetry K.retry_on_conflict
      → (hostport : String) (run : Run K) {run' : Run K}
      → patch_control_plane_endpoint K hostport run ≡ (ok tt, run')
      → (host : String) × (port : ℤ) × (control_plane_endpoint run.kcp hostport ≡ ok (host, port))
        × IsPublished host port run'.kcp run'.world
  unfolding patch_control_plane_endpoint
  patch_control_plane_endpoint-IsPublished retry hostport run {run'} h =
      elim (Result-cases (control_plane_endpoint run.kcp hostport)) [
        | inr (e, q) ↦ ground arith
        | inl (p, q) ↦
            let f = endpoint_attempt K p.0 p.1 in
            let (s, _, once) =
              Retries-final (λ _. Unit {0}) (λ _ _ _ _ _. tt)
                (retry (KamajiControlPlane F × K.World) f (run.kcp, run.world)) tt in
            let out = K.retry_on_conflict (KamajiControlPlane F × K.World) f (run.kcp, run.world) in
            elim (Result-cases out.0) [
              | inr (e, x) ↦ ground arith
              | inl (u, x) ↦
                  (p.0, p.1, q, endpoint_attempt-IsPublished p.0 p.1 s.0 s.1 (once ∙ ground arith))
            ]
      ]
