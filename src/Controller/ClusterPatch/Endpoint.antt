-- ===== src/Controller/ClusterPatch/Endpoint.antt =====
-- `controlPlaneEndpoint` and `patchControlPlaneEndpoint`.
pub mod Laws
pub mod Publication
pub mod Ports
use cluster_api_control_plan.Base.{
  ℕ, String, ◌<>◌, ◌==◌, Bool, true, false, Option, none, some, List, [], ◌∷◌, if◌then◌else◌,
}
use cluster_api_control_plan.Base.Int.{ℤ, int32}
use cluster_api_control_plan.GoNet.{
  split, split_host_port, host_port, addr_error, parse_int, parsed, num_error,
}
use cluster_api_control_plan.Errors.{
  Error, Result, ok, err, prefixed, address_error, number_error, wrap,
}
use cluster_api_control_plan.Objects.{
  Foreign, KamajiControlPlane, NetworkComponent, ApiEndpoint, key_of,
}
use cluster_api_control_plan.Kube.{Kube}
use cluster_api_control_plan.Controller.Run.{Run, Action}

-- Host and port of a text, the port read with that many bits.
unfoldable pub parse_endpoint : String → String → ℕ → String → Result (String × ℤ)
parse_endpoint split_message port_message bits hostport = elim (split_host_port hostport) [
  | addr_error e ↦ err (prefixed split_message (address_error e hostport))
  | host_port host port ↦ elim (parse_int bits port) [
    | num_error e ↦ err (prefixed port_message (number_error e port))
    | parsed p ↦ ok (host, p)
  ]
]

-- strings.Split(hostname, ":") has one part: there is no port.
unfoldable pub with_default_port : String → String
with_default_port hostname = elim (split b':' hostname) [
  | [] ↦ hostname
  | part ∷ rest ↦ elim rest [ [] ↦ hostname <> ":443" | p ∷ ps ↦ hostname ]
]

-- An Ingress goes before a Gateway; "" if there is neither.
unfoldable pub override_hostname : {F : Foreign} → NetworkComponent F → String
override_hostname network = elim network.ingress [
  | some ingress ↦ ingress.hostname
  | none ↦ elim network.gateway [ some gateway ↦ gateway.hostname | none ↦ "" ]
]

-- The hostname, if there is one, replaces what was read of the status.
unfoldable pub overridden : String → String × ℤ → Result (String × ℤ)
overridden hostname endpoint =
    if hostname == ""
    then ok endpoint
    else parse_endpoint "cannot split the control plane hostname into endpoint and port: "
        "cannot parse the control plane port into an integer: " 64 (with_default_port hostname)

module _ {F : Foreign} where
  unfoldable pub control_plane_endpoint : KamajiControlPlane F → String → Result (String × ℤ)
  control_plane_endpoint kcp status_endpoint =
      elim (parse_endpoint "cannot split the Kamaji endpoint host port pair: "
        "cannot convert port to integer: " 16 status_endpoint) [
          | err e ↦ err e
          | ok endpoint ↦ overridden (override_hostname kcp.spec.network) endpoint
        ]

module _ {F : Foreign} (K : Kube F) where
  -- One run of the closure in patchControlPlaneEndpoint.
  unfoldable pub endpoint_attempt :
      String
      → ℤ
      → KamajiControlPlane F × K.World
      → Result (Unit {0}) × (KamajiControlPlane F × K.World)
  endpoint_attempt endpoint port (kcp, w) =
      let (r, w1) = K.get_kcp (key_of kcp.meta) w in
      elim r [
        | err e ↦ (wrap "cannot retrieve *v1alpha2.KamajiControlPlane: " (err e), (kcp, w1))
        | ok fresh ↦
            let sent = record fresh {
              spec = record fresh.spec {
                control_plane_endpoint = record { host = endpoint; port = int32 port };
              };
            } in
            let (r2, w2) = K.update_kcp sent w1 in
            elim r2 [ err e ↦ (err e, (sent, w2)) | ok answer ↦ (ok tt, (answer, w2)) ]
      ]

  unfoldable pub patch_control_plane_endpoint : String → Action K (Unit {0})
  unfolding endpoint_attempt
  patch_control_plane_endpoint hostport run = elim (control_plane_endpoint run.kcp hostport) [
    | err e ↦ (err (prefixed "cannot retrieve ControlPlaneEndpoint: " e), run)
    | ok (endpoint, port) ↦
        let (r, (kcp, w)) =
          K.retry_on_conflict (KamajiControlPlane F × K.World) (endpoint_attempt endpoint port)
            (run.kcp, run.world) in
        (
          wrap "cannot update KamajiControlPlane with ControlPlaneEndpoint: " r,
          record run { kcp = kcp; world = w },
        )
  ]
