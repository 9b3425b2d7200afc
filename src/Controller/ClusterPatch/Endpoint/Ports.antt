-- ===== src/Controller/ClusterPatch/Endpoint/Ports.antt =====
-- Which port is published when a hostname comes with one: it is read with 64 bits, and cut to 32.
use Prim.Native.String.{String}
use cluster_api_control_plan.Base.{
  ℕ, ◌^◌, ◌<◌, ◌≡◌, ◌≢◌, ◌∙◌, refl, ap, some, [], ◌∷◌, ◌<>◌, arith, ==-of_ne,
}
use cluster_api_control_plan.Base.Int.{ℤ, pos, int32, int32_in_range}
use cluster_api_control_plan.GoNet.{split, has_char}
use cluster_api_control_plan.GoNet.Joining.{IsBare}
use cluster_api_control_plan.GoNet.Splitting.{split-append, split-single}
use cluster_api_control_plan.GoNet.Numbers.{decimal}
use cluster_api_control_plan.Errors.{ok}
use cluster_api_control_plan.Objects.{IngressComponent, Foreign}
use cluster_api_control_plan.Kube.{Kube}
use cluster_api_control_plan.Kube.Laws.{IsLawfulRetry}
use cluster_api_control_plan.Controller.Run.{Run}
use cluster_api_control_plan.Controller.ClusterPatch.Endpoint.{
  with_default_port, override_hostname, overridden, control_plane_endpoint,
  patch_control_plane_endpoint,
}
use cluster_api_control_plan.Controller.ClusterPatch.Endpoint.Laws.{
  decimal-IsBare, parse_endpoint-decimal, control_plane_endpoint-decimal,
}
use cluster_api_control_plan.Controller.ClusterPatch.Endpoint.Publication.{
  IsPublished, patch_control_plane_endpoint-IsPublished,
}

split-port :
    (name port : String)
    → IsBare name
    → IsBare port
    → split b':' (name <> String.◌∷◌ ":" port) ≡ name ∷ port ∷ []
split-port name port n p =
    split-append b':' ":" name port refl n.no_colon
    ∙ ap (λ s. name ∷ s) (split-single b':' port p.no_colon)

-- A hostname with one colon keeps its port.
with_default_port-port :
    (name port : String)
    → IsBare name
    → IsBare port
    → with_default_port (name <> String.◌∷◌ ":" port) ≡ name <> String.◌∷◌ ":" port
unfolding with_default_port
with_default_port-port name port n p = rw (split-port name port n p, with_default_port) refl

none-port : (name port : String) → IsBare name → IsBare port → (name <> String.◌∷◌ ":" port) ≢ ""
unfolding has_char
none-port name port n p h =
    ground (arith, ap (split b':') h, split-port name port n p, split-single b':' "" refl)

int32-bound : (n : ℕ) → int32 (pos n) ≡ pos n → n < 2 ^ 31
unfolding int32
int32-bound n h = ground arith

overridden-port :
    (name port : String) (v : ℕ) (endpoint : String × ℤ)
    → IsBare name
    → decimal port ≡ some v
    → v < 2 ^ 63
    → overridden (name <> String.◌∷◌ ":" port) endpoint ≡ ok (name, pos v)
unfolding overridden
overridden-port name port v endpoint n d small =
    let p = decimal-IsBare port v d in
    let hostname = name <> String.◌∷◌ ":" port in
    rw (==-of_ne hostname "" (none-port name port n p), with_default_port-port name port n p)
      (parse_endpoint-decimal _ _ 63 name port v n d ∙ ground arith)

-- With an Ingress whose hostname is a name and a decimal port of up to 63 bits, and a status
-- endpoint of a bare host and a port below 32768: when patchControlPlaneEndpoint succeeds, the server
-- has accepted that name, and the port cut to 32 bits, which is the port itself exactly if it is
-- below 2 ^ 31.
pub patch_control_plane_endpoint-port :
    {F : Foreign} (K : Kube F)
    → IsLawfulRetry K.retry_on_conflict
    → (host status_port name port : String) (s v : ℕ) (run : Run K) {run' : Run K}
      (ingress : IngressComponent)
    → IsBare host
    → decimal status_port ≡ some s
    → s < 32768
    → run.kcp.spec.network.ingress ≡ some ingress
    → ingress.hostname ≡ name <> String.◌∷◌ ":" port
    → IsBare name
    → decimal port ≡ some v
    → v < 2 ^ 63
    → patch_control_plane_endpoint K (host <> String.◌∷◌ ":" status_port) run ≡ (ok tt, run')
    → IsPublished K name (pos v) run'.kcp run'.world
      × (int32 (pos v) ≡ pos v → v < 2 ^ 31)
      × (v < 2 ^ 31 → int32 (pos v) ≡ pos v)
unfolding override_hostname
patch_control_plane_endpoint-port K retry host status_port name port s v run {run'} ingress bare d
      small is e n p fits h =
    let hostport = host <> String.◌∷◌ ":" status_port in
    let (chosen, number, q, published) =
      patch_control_plane_endpoint-IsPublished K retry hostport run h in
    let known = control_plane_endpoint-decimal run.kcp host status_port s bare d in
    let over = overridden-port name port v (host, pos s) n p fits in
    let same : control_plane_endpoint run.kcp hostport ≡ ok (name, pos v) =
      ground (arith, known, over, is, e, small) in
    let names : chosen ≡ name = ground (arith, q, same) in
    let ports : number ≡ pos v = ground (arith, q, same) in
    (rw (names, ports) at published, int32-bound v, int32_in_range v)
