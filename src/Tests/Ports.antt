-- ===== src/Tests/Ports.antt =====
-- A hostname with a port above 32 bits.
use cluster_api_control_plan.Base.{[], ◌≡◌, refl, some, ◌<◌, ◌^◌, arith}
use cluster_api_control_plan.Base.Int.{pos, int32}
use cluster_api_control_plan.Errors.{ok}
use cluster_api_control_plan.GoNet.{
  split, has_char, split_host_port, bracketed, after_bracket, plain, split_first, split_last,
  parse_int,
}
use cluster_api_control_plan.GoNet.Joining.{IsBare}
use cluster_api_control_plan.GoNet.Numbers.{decimal}
use cluster_api_control_plan.Objects.{KamajiControlPlane, IngressComponent}
use cluster_api_control_plan.Controller.Run.{Run}
use cluster_api_control_plan.Controller.ClusterPatch.Endpoint.{
  parse_endpoint, with_default_port, override_hostname, overridden, control_plane_endpoint,
  patch_control_plane_endpoint,
}
use cluster_api_control_plan.Controller.ClusterPatch.Endpoint.Publication.{IsPublished}
use cluster_api_control_plan.Controller.ClusterPatch.Endpoint.Ports.{
  patch_control_plane_endpoint-port,
}
use cluster_api_control_plan.Tests.Fixtures.{trivial, kcp, kcp_fields, network, ingress}
use cluster_api_control_plan.Tests.Memory.{memory, retry, retry-IsLawful}
use cluster_api_control_plan.Tests.Managers.{world}

-- 2 ^ 32 + 443
abbrev far : IngressComponent
far = record ingress { hostname = "cp.example.com:4294967739" }

abbrev ported : KamajiControlPlane trivial
ported = record kcp {
  spec = record kcp.spec {
    fields = record kcp_fields { network = record network { ingress = some far } };
  };
}

abbrev run : Run memory
run = record { world = world; kcp = ported; conditions = [] }

abbrev published : Run memory
published = (patch_control_plane_endpoint memory "10.0.0.1:6443" run).1

publishes : patch_control_plane_endpoint memory "10.0.0.1:6443" run ≡ (ok tt, published)
unfolding patch_control_plane_endpoint control_plane_endpoint parse_endpoint overridden
    override_hostname with_default_port retry has_char split_host_port bracketed after_bracket plain
    split_first split_last parse_int split
publishes = refl

-- It is published as 443.
cut : int32 (pos 4294967739) ≡ pos 443
unfolding int32
cut = refl

IsBare-host : IsBare "10.0.0.1"
unfolding has_char
IsBare-host = record { no_colon = refl; no_open = refl; no_close = refl }

IsBare-name : IsBare "cp.example.com"
unfolding has_char
IsBare-name = record { no_colon = refl; no_open = refl; no_close = refl }

status_port : decimal "6443" ≡ some 6443
unfolding decimal
status_port = refl

far_port : decimal "4294967739" ≡ some 4294967739
unfolding decimal
far_port = refl

patch_control_plane_endpoint-port_example :
    IsPublished memory "cp.example.com" (pos 4294967739) published.kcp published.world
    × (int32 (pos 4294967739) ≡ pos 4294967739 → 4294967739 < 2 ^ 31)
    × (4294967739 < 2 ^ 31 → int32 (pos 4294967739) ≡ pos 4294967739)
patch_control_plane_endpoint-port_example =
    patch_control_plane_endpoint-port memory retry-IsLawful "10.0.0.1" "6443" "cp.example.com"
      "4294967739" 6443 4294967739 run far IsBare-host status_port (omega arith) refl refl
      IsBare-name far_port (omega arith) publishes
