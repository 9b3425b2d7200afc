-- ===== src/Controller/ClusterPatch/Endpoint/Laws.antt =====
-- Which endpoint is published, for texts in which no host has a colon or a bracket.
use cluster_api_control_plan.Base.{
  ◌∙◌, ◌<◌, ==-of_ne, suc, ℕ, ◌+◌, ◌-◌, ◌*◌, ◌^◌, ◌≡◌, ◌≢◌, refl, false, ◌<>◌, some, arith, ltb,
  if◌then◌else◌,
}
use cluster_api_control_plan.Objects.{IngressComponent, Foreign, KamajiControlPlane}
use Prim.Native.Char.{code}
use Prim.Native.String.{String}
use cluster_api_control_plan.Base.Int.{ℤ, pos}
use cluster_api_control_plan.GoNet.{has_char, err_range, is_digit}
use cluster_api_control_plan.GoNet.Joining.{IsBare, split_host_port-append}
use cluster_api_control_plan.GoNet.Splitting.{split-single}
use cluster_api_control_plan.GoNet.Numbers.{decimal, decimal_from, parse_int-decimal}
use cluster_api_control_plan.Errors.{ok, err, prefixed, number_error}
use cluster_api_control_plan.Controller.ClusterPatch.Endpoint.{
  parse_endpoint, with_default_port, override_hostname, overridden, control_plane_endpoint,
}

decimal_from-lacks :
    (n k : ℕ) (s : String) (v : ℕ)
    → is_digit n ≡ false
    → decimal_from k s ≡ some v
    → has_char n s ≡ false
unfolding decimal_from has_char
decimal_from-lacks n k String.[] v d h = refl
decimal_from-lacks n k (String.◌∷◌ c s) v d h =
    ground (arith, decimal_from-lacks n (k * 10 + (code c - b'0')) s v d)

decimal-lacks :
    (n : ℕ) (s : String) (v : ℕ) → is_digit n ≡ false → decimal s ≡ some v → has_char n s ≡ false
unfolding decimal
decimal-lacks n String.[] v d h = cc
decimal-lacks n (String.◌∷◌ c s) v d h = decimal_from-lacks n 0 (String.◌∷◌ c s) v d h

-- Digits are neither colons nor brackets.
pub decimal-IsBare : (s : String) (v : ℕ) → decimal s ≡ some v → IsBare s
unfolding is_digit
decimal-IsBare s v h = record {
  no_colon = decimal-lacks b':' s v refl h;
  no_open = decimal-lacks b'[' s v refl h;
  no_close = decimal-lacks b']' s v refl h;
}

-- A host and a decimal port: the port has to be less than half of the range.
pub parse_endpoint-decimal :
    (m n : String) (w : ℕ) (host port : String) (v : ℕ)
    → IsBare host
    → decimal port ≡ some v
    → parse_endpoint m n (suc w) (host <> String.◌∷◌ ":" port)
      ≡ (if ltb v (2 ^ w) then ok (host, pos v) else err (prefixed n (number_error err_range port)))
unfolding parse_endpoint
parse_endpoint-decimal m n w host port v bare d =
    rw
      (
        split_host_port-append host port bare (decimal-IsBare port v d),
        parse_endpoint,
        parse_int-decimal w port v d,
      )
      (ground arith)

with_default_port-bare :
    (hostname : String) → IsBare hostname → with_default_port hostname ≡ hostname <> ":443"
unfolding with_default_port
with_default_port-bare hostname bare =
    rw (split-single b':' hostname bare.no_colon, with_default_port)

decimal_443 : decimal "443" ≡ some 443
unfolding decimal
decimal_443 = refl

-- A hostname with no port gets port 443.
pub overridden-bare :
    (hostname : String) (endpoint : String × ℤ)
    → hostname ≢ ""
    → IsBare hostname
    → overridden hostname endpoint ≡ ok (hostname, pos 443)
unfolding overridden
overridden-bare hostname endpoint ne bare =
    let e : with_default_port hostname ≡ hostname <> ":443" =
      with_default_port-bare hostname bare in
    rw (==-of_ne hostname "" ne, e)
      (parse_endpoint-decimal _ _ 63 hostname "443" 443 bare decimal_443)

module _ {F : Foreign} (kcp : KamajiControlPlane F) where
  -- A status endpoint of a host and a decimal port is refused if the port is 32768 or more.
  -- Otherwise the hostname of the Ingress or of the Gateway, if there is one, decides.
  pub control_plane_endpoint-decimal :
      (host port : String) (v : ℕ)
      → IsBare host
      → decimal port ≡ some v
      → control_plane_endpoint kcp (host <> String.◌∷◌ ":" port) ≡ (
          if ltb v 32768
          then overridden (override_hostname kcp.spec.network) (host, pos v)
          else err (prefixed "cannot convert port to integer: " (number_error err_range port)))
  unfolding control_plane_endpoint
  control_plane_endpoint-decimal host port v bare d =
      let e =
        parse_endpoint-decimal "cannot split the Kamaji endpoint host port pair: "
          "cannot convert port to integer: " 15 host port v bare d in
      rw (e, control_plane_endpoint) (ground arith)

  -- With an Ingress that has a hostname and no port, the endpoint is that hostname and port 443,
  -- whatever the Gateway says and whatever host and port below 32768 the status shows.
  pub control_plane_endpoint-ingress :
      (ingress : IngressComponent) (host port : String) (v : ℕ)
      → IsBare host
      → decimal port ≡ some v
      → v < 32768
      → kcp.spec.network.ingress ≡ some ingress
      → ingress.hostname ≢ ""
      → IsBare ingress.hostname
      → control_plane_endpoint kcp (host <> String.◌∷◌ ":" port) ≡ ok (ingress.hostname, pos 443)
  unfolding override_hostname
  control_plane_endpoint-ingress ingress host port v bare d small is ne named =
      control_plane_endpoint-decimal host port v bare d
      ∙ ground (arith, overridden-bare ingress.hostname (host, pos v) ne named)
