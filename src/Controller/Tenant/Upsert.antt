-- ===== src/Controller/Tenant/Upsert.antt =====
-- The closure that CreateOrUpdate runs, and the loop around it.
use cluster_api_control_plan.Base.{Bool, true, false, Option, none, some, is_some}
use cluster_api_control_plan.Errors.{Result, ok, err, wrap}
use cluster_api_control_plan.Objects.{Foreign, KamajiControlPlane, TenantControlPlane, Cluster}
use cluster_api_control_plan.Kube.{Kube}
use cluster_api_control_plan.ExternalCluster.Names.{generate_remote_tenant_control_plane_names}
use cluster_api_control_plan.Controller.Tenant.Metadata.{tenant_meta}
use cluster_api_control_plan.Controller.Tenant.Settings.{with_core_dns_default, tenant_settings}
use cluster_api_control_plan.Controller.Tenant.Exposure.{check_sans, tenant_exposure}

module _ {F : Foreign} (K : Kube F) where
  -- A TenantControlPlane in the same cluster belongs to the KamajiControlPlane.
  unfoldable pub set_owner :
      Bool
      → K.Client
      → KamajiControlPlane F
      → TenantControlPlane F
      → Result (Unit {0}) × TenantControlPlane F
  set_owner true client kcp tcp = (ok tt, tcp)
  set_owner false client kcp tcp = elim (K.set_controller_reference kcp client tcp.meta) [
    | err e ↦ (err e, tcp)
    | ok meta ↦ (ok tt, record tcp { meta = meta })
  ]

  -- The closure, on the object and on `kcp`. The flag is `isDelegatedExternally`.
  unfoldable pub mutate :
      Bool
      → K.Client
      → Cluster
      → TenantControlPlane F × KamajiControlPlane F
      → Result (Unit {0}) × (TenantControlPlane F × KamajiControlPlane F)
  mutate delegated client cluster (tcp, kcp) =
      let kcp1 = with_core_dns_default kcp in
      let tcp1 = record tcp {
        meta = tenant_meta K kcp tcp.meta;
        spec = tenant_settings cluster kcp.spec tcp.spec;
      } in
      elim (check_sans kcp.spec.network.cert_sans) [
        | err e ↦ (err e, (tcp1, kcp1))
        | ok u ↦
            let tcp2 = record tcp1 { spec = tenant_exposure kcp.spec tcp1.spec } in
            let (r, tcp3) = set_owner delegated client kcp1 tcp2 in (r, (tcp3, kcp1))
      ]

  -- Name and namespace of the object in another cluster.
  unfoldable pub renamed :
      Bool → KamajiControlPlane F → TenantControlPlane F → Result (TenantControlPlane F)
  renamed false kcp tcp = ok tcp
  renamed true kcp tcp = elim (generate_remote_tenant_control_plane_names kcp) [
    | err e ↦ err e
    | ok (name, namespace) ↦
        ok (record tcp { meta = record tcp.meta { name = name; namespace = namespace } })
  ]

  abbrev pub client_or_local : Option K.Client → K.Client
  client_or_local none = K.local
  client_or_local (some remote) = remote

  abbrev Variables : Type 0
  Variables = TenantControlPlane F × KamajiControlPlane F × K.World

  -- One run of the closure of RetryOnConflict.
  unfoldable pub upsert_attempt :
      Option K.Client → Cluster → Variables → Result (Unit {0}) × Variables
  upsert_attempt remote cluster (tcp, kcp, w) =
      let delegated = is_some remote in
      elim (renamed delegated kcp tcp) [
        | err e ↦ (err e, (tcp, kcp, w))
        | ok named ↦
            let (r, (tcp1, kcp1), w1) =
              K.create_or_update_tenant (KamajiControlPlane F) (client_or_local remote)
                (mutate delegated (client_or_local remote) cluster) (named, kcp) w in
            (r, (tcp1, kcp1, w1))
      ]

  unfoldable pub create_or_update_tenant_control_plane :
      Option K.Client
      → Cluster
      → KamajiControlPlane F
      → K.World
      → Result (TenantControlPlane F) × (KamajiControlPlane F × K.World)
  unfolding upsert_attempt
  create_or_update_tenant_control_plane remote cluster kcp w =
      let new = record K.zero_tenant {
        meta = record K.zero_tenant.meta { name = kcp.meta.name; namespace = kcp.meta.namespace };
      } in
      let (r, (tcp, kcp1, w1)) =
        K.retry_on_conflict Variables (upsert_attempt remote cluster) (new, kcp, w) in
      elim r [
        | err e ↦ (wrap "cannot create or update TenantControlPlane: " (err e), (kcp1, w1))
        | ok u ↦ (ok tcp, (kcp1, w1))
      ]
