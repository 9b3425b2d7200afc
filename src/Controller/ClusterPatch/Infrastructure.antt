-- ===== src/Controller/ClusterPatch/Infrastructure.antt =====
-- `getInfraClusterFromRef`, `patchCluster` and the ways to patch or to check an infrastructure
-- cluster.
use cluster_api_control_plan.Base.{
  String, ◌<>◌, ◌==◌, Bool, true, false, ◌&&◌, not, Option, none, some, List, [], ◌∷◌,
  if◌then◌else◌,
}
use cluster_api_control_plan.Base.Int.{ℤ, pos, eqb}
use cluster_api_control_plan.Errors.{
  Result, ok, err, new_error, prefixed, wrap, unmanaged_control_plane_address, as_unmanaged,
}
use cluster_api_control_plan.Objects.{Foreign, KamajiControlPlane, Cluster, ObjectReference}
use cluster_api_control_plan.Kube.{Kube, text, number, flag}
use cluster_api_control_plan.Controller.Run.{Reconciler}
use cluster_api_control_plan.Controller.ClusterPatch.Endpoint.{control_plane_endpoint}

-- The ways to treat an infrastructure cluster; the flag is `patchStatus`.
pub data Way : Type 0 where
  patch_generic : Bool → Way
  check_only check_or_patch patch_open_stack : Way

-- The cases of the `switch` in patchCluster.
abbrev pub cases : List (String × Way)
cases =
    ("AWSCluster", patch_generic false)
    ∷ ("AzureCluster", patch_generic false)
    ∷ ("HetznerCluster", patch_generic false)
    ∷ ("IonosCloudCluster", patch_generic false)
    ∷ ("KubevirtCluster", patch_generic true)
    ∷ ("Metal3Cluster", check_only)
    ∷ ("MetalStackCluster", check_only)
    ∷ ("NutanixCluster", patch_generic true)
    ∷ ("OpenStackCluster", patch_open_stack)
    ∷ ("PacketCluster", patch_generic true)
    ∷ ("ProxmoxCluster", check_or_patch)
    ∷ ("TinkerbellCluster", check_or_patch)
    ∷ ("VSphereCluster", check_or_patch)
    ∷ []

-- The first case of the kind, if there is one.
unfoldable pub way_of : String → List (String × Way) → Option Way
way_of kind [] = none
way_of kind ((name, way) ∷ more) = if kind == name then some way else way_of kind more

module _ {F : Foreign} (K : Kube F) where
  unfoldable pub get_infra_cluster_from_ref :
      ObjectReference → String → K.World → Result K.Unstructured × K.World
  get_infra_cluster_from_ref ref namespace w =
      if not (K.is_defined ref)
      then (err (new_error "object reference is not defined"), w)
      else let (m, w1) = K.rest_mapping ref.api_group ref.kind w in
        elim m [
          | err e ↦ (
            wrap ("cannot resolve API version for " <> ref.kind <> "." <> ref.api_group <> ": ")
                (err e),
            w1,
          )
          | ok gvk ↦
              let (r, w2) =
                K.get_unstructured gvk (record { namespace = namespace; name = ref.name }) w1 in
              (
                wrap ("cannot retrieve " <> ref.kind <> " " <> namespace <> "/" <> ref.name <> ": ")
                    r,
                w2,
              )
        ]

  -- The first lines of each way: the infrastructure cluster.
  unfoldable pub infra_cluster : Cluster → K.World → Result K.Unstructured × K.World
  unfolding get_infra_cluster_from_ref
  infra_cluster cluster w =
      let (r, w1) =
        get_infra_cluster_from_ref cluster.infrastructure_ref cluster.meta.namespace w in
      (
        wrap ("cannot retrieve infrastructure cluster " <> cluster.infrastructure_ref.kind <> ": ")
            r,
        w1,
      )

  -- The fields that patchGenericCluster sets.
  unfoldable pub set_generic_fields : K.Unstructured → String → ℤ → Bool → Result K.Unstructured
  set_generic_fields infra endpoint port patch_status =
      elim (K.set_nested_map infra (("host", text endpoint) ∷ ("port", number port) ∷ [])
        ("spec" ∷ "controlPlaneEndpoint" ∷ [])) [
          | err e ↦
              wrap ("unable to set unstructured " <> K.get_kind infra <> " spec patch: ") (err e)
          | ok infra1 ↦
              if patch_status
              then wrap ("unable to set unstructured " <> K.get_kind infra1 <> " status patch: ")
                  (K.set_nested_field infra1 (flag true) ("status" ∷ "ready" ∷ []))
              else ok infra1
        ]

  unfoldable pub send_generic_patch :
      K.Unstructured → String → ℤ → Bool → K.World → Result (Unit {0}) × K.World
  unfolding set_generic_fields
  send_generic_patch infra endpoint port patch_status w = elim (K.new_helper infra) [
    | err e ↦ (wrap "unable to create patch helper: " (err e), w)
    | ok helper ↦ elim (set_generic_fields infra endpoint port patch_status) [
      | err e ↦ (err e, w)
      | ok changed ↦
          let (r, w1) = K.patch helper changed w in
          (
            wrap ("cannot perform PATCH update for the " <> K.get_kind changed <> " resource: ") r,
            w1,
          )
    ]
  ]

  unfoldable pub patch_generic_cluster :
      Cluster → String → ℤ → Bool → K.World → Result (Unit {0}) × K.World
  unfolding send_generic_patch
  patch_generic_cluster cluster endpoint port patch_status w =
      let (r, w1) = infra_cluster cluster w in
      elim r [
        | err e ↦ (err e, w1)
        | ok infra ↦ send_generic_patch infra endpoint port patch_status w1
      ]

  unfoldable pub check_endpoint : K.Unstructured → String → ℤ → Result (Unit {0})
  check_endpoint infra endpoint port =
      elim (K.nested_string infra ("spec" ∷ "controlPlaneEndpoint" ∷ "host" ∷ [])) [
        | err e ↦ wrap "cannot extract control plane endpoint host: " (err e)
        | ok cp_host ↦
            if cp_host == ""
            then err (unmanaged_control_plane_address (K.get_kind infra))
            else elim (K.nested_int64 infra ("spec" ∷ "controlPlaneEndpoint" ∷ "port" ∷ [])) [
              | err e ↦ wrap "cannot extract control plane endpoint host: " (err e)
              | ok cp_port ↦
                  if cp_host == "" && eqb cp_port (pos 0)
                  then err (unmanaged_control_plane_address (K.get_kind infra))
                  else if not (cp_host == endpoint)
                  then err (
                      new_error (
                        "the "
                        <> K.get_kind infra
                        <> " cluster has been provisioned with a mismatching host"))
                  else if not (eqb cp_port port)
                  then err (
                      new_error (
                        "the "
                        <> K.get_kind infra
                        <> " cluster has been provisioned with a mismatching port"))
                  else ok tt
            ]
      ]

  unfoldable pub check_generic_cluster :
      Cluster → String → ℤ → K.World → Result (Unit {0}) × K.World
  check_generic_cluster cluster endpoint port w =
      let (r, w1) = infra_cluster cluster w in
      elim r [ err e ↦ (err e, w1) | ok infra ↦ (check_endpoint infra endpoint port, w1) ]

  unfoldable pub check_or_patch_generic_cluster :
      Cluster → String → ℤ → K.World → Result (Unit {0}) × K.World
  check_or_patch_generic_cluster cluster endpoint port w =
      let (r, w1) = check_generic_cluster cluster endpoint port w in
      elim r [
        | err e ↦
            if as_unmanaged e
            then patch_generic_cluster cluster endpoint port false w1
            else (err e, w1)
        | ok u ↦ (ok tt, w1)
      ]

  unfoldable pub set_open_stack_fields : K.Unstructured → String → ℤ → Result K.Unstructured
  set_open_stack_fields osc endpoint port =
      elim (K.set_nested_field osc (text endpoint) ("spec" ∷ "apiServerFixedIP" ∷ [])) [
        | err e ↦
            wrap ("unable to set unstructured " <> K.get_kind osc <> " spec apiServerFixedIP: ")
              (err e)
        | ok osc1 ↦
            wrap ("unable to set unstructured " <> K.get_kind osc1 <> " spec apiServerPort: ")
              (K.set_nested_field osc1 (number port) ("spec" ∷ "apiServerPort" ∷ []))
      ]

  unfoldable pub send_open_stack_patch :
      K.Unstructured → String → ℤ → K.World → Result (Unit {0}) × K.World
  unfolding set_open_stack_fields
  send_open_stack_patch osc endpoint port w = elim (K.new_helper osc) [
    | err e ↦ (wrap "unable to create patch helper: " (err e), w)
    | ok helper ↦ elim (set_open_stack_fields osc endpoint port) [
      | err e ↦ (err e, w)
      | ok changed ↦
          let (r, w1) = K.patch helper changed w in
          (wrap "cannot perform PATCH update for the OpenStackCluster resource: " r, w1)
    ]
  ]

  unfoldable pub patch_open_stack_cluster :
      Cluster → String → ℤ → K.World → Result (Unit {0}) × K.World
  unfolding send_open_stack_patch
  patch_open_stack_cluster cluster endpoint port w =
      let (r, w1) = infra_cluster cluster w in
      elim r [ err e ↦ (err e, w1) | ok osc ↦ send_open_stack_patch osc endpoint port w1 ]

  unfoldable pub patch_by : Way → Cluster → String → ℤ → K.World → Result (Unit {0}) × K.World
  patch_by (patch_generic status) cluster endpoint port w =
      patch_generic_cluster cluster endpoint port status w
  patch_by check_only cluster endpoint port w = check_generic_cluster cluster endpoint port w
  patch_by check_or_patch cluster endpoint port w =
      check_or_patch_generic_cluster cluster endpoint port w
  patch_by patch_open_stack cluster endpoint port w =
      patch_open_stack_cluster cluster endpoint port w

  -- The `switch` on the kind of the infrastructure cluster, with its default.
  unfoldable pub patch_by_kind :
      Reconciler K → Cluster → String → ℤ → K.World → Result (Unit {0}) × K.World
  patch_by_kind r cluster endpoint port w = elim (way_of cluster.infrastructure_ref.kind cases) [
    | some way ↦ patch_by way cluster endpoint port w
    | none ↦
        if r.dynamic_infrastructure_clusters cluster.infrastructure_ref.kind
        then patch_generic_cluster cluster endpoint port false w
        else (err (new_error "unsupported infrastructure provider"), w)
  ]

  unfoldable pub patch_cluster :
      Reconciler K → Cluster → KamajiControlPlane F → String → K.World → Result (Unit {0}) × K.World
  patch_cluster r cluster kcp hostport w =
      if not (K.is_defined cluster.infrastructure_ref)
      then (err (new_error "capiv1beta2.Cluster has no InfrastructureRef"), w)
      else elim (control_plane_endpoint kcp hostport) [
        | err e ↦ (err (prefixed "cannot retrieve ControlPlaneEndpoint: " e), w)
        | ok (endpoint, port) ↦ patch_by_kind r cluster endpoint port w
      ]
