-- ===== src/Controller/ClusterPatch/Safety.antt =====
-- The writes to an infrastructure cluster and their check.
use cluster_api_control_plan.Kube.{Nested, Kube, text, number, flag}
use cluster_api_control_plan.Base.{
  map, none, Entries, ◌≡◌, ◌≢◌, refl, ◌∙◌, Bool, true, false, ◌||◌, ◌==◌, ◌<>◌, List, [], ◌∷◌,
  arith, if◌then◌else◌, eq_refl, inl, inr, lookup, ==-of_ne,
}
use Prim.Native.String.{String}
use cluster_api_control_plan.Base.Int.{ℤ, eqb_refl}
use cluster_api_control_plan.Errors.{
  Error, Result, ok, err, is_ok, wrap, as_unmanaged, Result-cases, new_error,
}
use cluster_api_control_plan.Objects.{Foreign, KamajiControlPlane, Cluster}
use cluster_api_control_plan.Kube.Laws.{IsLawfulObjects}
use cluster_api_control_plan.Controller.Run.{Reconciler}
use cluster_api_control_plan.Controller.ClusterPatch.Endpoint.{control_plane_endpoint}
use cluster_api_control_plan.Controller.ClusterPatch.Infrastructure.{
  Way, cases, way_of, infra_cluster, set_generic_fields, check_endpoint, check_generic_cluster,
  patch_generic_cluster, check_or_patch_generic_cluster, patch_by_kind, patch_cluster,
}

abbrev pub host_path : List String
host_path = "spec" ∷ "controlPlaneEndpoint" ∷ "host" ∷ []

abbrev pub port_path : List String
port_path = "spec" ∷ "controlPlaneEndpoint" ∷ "port" ∷ []

abbrev pub among : List String → String → Bool
among [] kind = false
among (k ∷ ks) kind = kind == k || among ks kind

-- The kinds that the program knows by name.
abbrev pub supported_kinds : List String
supported_kinds =
    "AWSCluster" ∷ "AzureCluster" ∷ "HetznerCluster" ∷ "IonosCloudCluster" ∷ "KubevirtCluster"
    ∷ "Metal3Cluster" ∷ "MetalStackCluster" ∷ "NutanixCluster" ∷ "OpenStackCluster"
    ∷ "PacketCluster" ∷ "ProxmoxCluster" ∷ "TinkerbellCluster" ∷ "VSphereCluster" ∷ []

abbrev unmanaged : Result (Unit {0}) → Bool
unmanaged (ok u) = false
unmanaged (err e) = as_unmanaged e

way_of-none :
    (table : List (String × Way)) (kind : String)
    → among (map (λ (name, _). name) table) kind ≡ false
    → way_of kind table ≡ none
unfolding way_of
way_of-none [] kind h = refl
way_of-none ((name, way) ∷ more) kind h = ground (arith, way_of-none more kind)

module _ {F : Foreign} (K : Kube F) where
  check_endpoint-eq :
      (infra : K.Unstructured) (host : String) (port : ℤ)
      → host ≢ ""
      → K.nested_string infra host_path ≡ ok host
      → K.nested_int64 infra port_path ≡ ok port
      → check_endpoint K infra host port ≡ ok tt
  unfolding check_endpoint
  check_endpoint-eq infra host port ne h p =
      rw (h, p, check_endpoint) (ground (arith, ==-of_ne host "" ne, eq_refl host, eqb_refl port))

  abbrev endpoint_fields : String → ℤ → Entries Nested
  endpoint_fields host port = ("host", text host) ∷ ("port", number port) ∷ []

  check-set_status :
      IsLawfulObjects K
      → (infra1 changed : K.Unstructured) (host : String) (port : ℤ) (status : Bool) → host ≢ ""
      → K.nested_string infra1 host_path ≡ ok host
      → K.nested_int64 infra1 port_path ≡ ok port
      → (if status
          then wrap
              ("unable to set unstructured " <> K.get_kind infra1 <> " status patch: ")
              (K.set_nested_field infra1 (flag true) ("status" ∷ "ready" ∷ []))
          else ok infra1)
        ≡ ok changed
      → check_endpoint K changed host port ≡ ok tt
  check-set_status L infra1 changed host port false ne hs hp h =
      check_endpoint-eq changed host port ne (ground arith) (ground arith)
  check-set_status L infra1 changed host port true ne hs hp h =
      let q : K.set_nested_field infra1 (flag true) ("status" ∷ "ready" ∷ []) ≡ ok changed =
        ground arith in
      check_endpoint-eq changed host port ne
        (L.string-set_status infra1 changed (flag true) ("controlPlaneEndpoint" ∷ "host" ∷ []) q
          ∙ hs)
        (L.int64-set_status infra1 changed (flag true) ("controlPlaneEndpoint" ∷ "port" ∷ []) q
          ∙ hp)

  -- What `patchGenericCluster` puts into an infrastructure cluster passes the check of
  -- `checkGenericCluster` for the same endpoint, if the host is not empty.
  pub check-set_generic_fields :
      IsLawfulObjects K
      → (infra changed : K.Unstructured) (host : String) (port : ℤ) (status : Bool) → host ≢ ""
      → set_generic_fields K infra host port status ≡ ok changed
      → check_endpoint K changed host port ≡ ok tt
  unfolding set_generic_fields lookup
  check-set_generic_fields L infra changed host port status ne h =
      elim (Result-cases (
        K.set_nested_map infra (endpoint_fields host port)
          ("spec" ∷ "controlPlaneEndpoint" ∷ []))) [
            | inr (e, q) ↦ ground arith
            | inl (infra1, q) ↦
                check-set_status L infra1 changed host port status ne
                  (L.string-set_map infra infra1 (endpoint_fields host port) "host" host q refl)
                  (L.int64-set_map infra infra1 (endpoint_fields host port) "port" port q refl)
                  (ground arith)
          ]

  -- The check reports an unmanaged address exactly if there is no host.
  check_endpoint-unmanaged :
      (infra : K.Unstructured) (endpoint : String) (port : ℤ) (host : String)
      → K.nested_string infra host_path ≡ ok host
      → ((e : Error) → K.nested_int64 infra port_path ≡ err e → as_unmanaged e ≡ false)
      → unmanaged (check_endpoint K infra endpoint port) ≡ (host == "")
  unfolding check_endpoint as_unmanaged
  check_endpoint-unmanaged infra endpoint port host h foreign =
      elim (Result-cases (K.nested_int64 infra port_path)) [
        | inl (p, q) ↦ rw (h, q, check_endpoint) (ground arith)
        | inr (e, q) ↦ ground (arith, foreign e q)
      ]

  -- An infrastructure cluster that has a host is only compared, never written: the answer is that
  -- of the comparison, in the world after the read. One that has none is patched.
  check_or_patch-eq :
      (cluster : Cluster) (endpoint : String) (port : ℤ) (w w1 : K.World) (infra : K.Unstructured)
      (host : String)
      → infra_cluster K cluster w ≡ (ok infra, w1)
      → K.nested_string infra host_path ≡ ok host
      → ((e : Error) → K.nested_int64 infra port_path ≡ err e → as_unmanaged e ≡ false)
      → check_or_patch_generic_cluster K cluster endpoint port w ≡ (
          if host == ""
          then patch_generic_cluster K cluster endpoint port false w1
          else (check_endpoint K infra endpoint port, w1))
  unfolding check_or_patch_generic_cluster check_generic_cluster
  check_or_patch-eq cluster endpoint port w w1 infra host read h foreign =
      ground (arith, check_endpoint-unmanaged infra endpoint port host h foreign)

  patch_by_kind-unsupported :
      (r : Reconciler K) (cluster : Cluster) (endpoint : String) (port : ℤ) (w : K.World)
      → among supported_kinds cluster.infrastructure_ref.kind ≡ false
      → r.dynamic_infrastructure_clusters cluster.infrastructure_ref.kind ≡ false
      → patch_by_kind K r cluster endpoint port w
        ≡ (err (new_error "unsupported infrastructure provider"), w)
  unfolding patch_by_kind
  patch_by_kind-unsupported r cluster endpoint port w unknown static =
      ground (arith, way_of-none cases cluster.infrastructure_ref.kind unknown)

  -- A kind that is neither supported nor among the dynamic ones is refused, and so is a status
  -- endpoint that cannot be read, with nothing read or written.
  pub patch_cluster-unsupported :
      (r : Reconciler K) (cluster : Cluster) (kcp : KamajiControlPlane F) (hostport : String)
      (w : K.World)
      → among supported_kinds cluster.infrastructure_ref.kind ≡ false
      → r.dynamic_infrastructure_clusters cluster.infrastructure_ref.kind ≡ false
      → (is_ok (patch_cluster K r cluster kcp hostport w).0 ≡ false)
        × ((patch_cluster K r cluster kcp hostport w).1 ≡ w)
  unfolding patch_cluster
  patch_cluster-unsupported r cluster kcp hostport w unknown static =
      elim (Result-cases (control_plane_endpoint kcp hostport)) [
        | inr (e, q) ↦ ground arith
        | inl (p, q) ↦ ground (arith, patch_by_kind-unsupported r cluster p.0 p.1 w unknown static)
      ]
