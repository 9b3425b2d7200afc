-- ===== src/Controller/Reconcile/Progress/Upserts.antt =====
-- The TenantControlPlane and the two Secrets are made.
use mathlib.Core.Path.{subst}
use cluster_api_control_plan.Base.{
  ◌≡◌, ◌∙◌, sym, ap, arith, String, List, Bool, false, is_some, Option, ◌==◌, none, some, entries,
  lookup, ◌<>◌,
}
use cluster_api_control_plan.Errors.{ok, Result}
use cluster_api_control_plan.Objects.{
  Foreign, KamajiControlPlane, TenantControlPlane, Cluster, OwnerReference, Secret, Bytes,
  NetworkComponent,
}
use cluster_api_control_plan.Kube.{Kube}
use cluster_api_control_plan.Controller.Resources.{
  own_secret, mutate_kubeconfig, mutate_ca, secret_attempt, upsert_secret,
  create_or_update_kubeconfig, create_or_update_certificate_authority, create_required_resources,
  kubeconfig_key, reader_of, named_secret, capi_labels, with_labels,
}
use cluster_api_control_plan.Controller.Tenant.{
  with_core_dns_default, mutate, set_owner, check_sans, upsert_attempt, client_or_local,
  tenant_meta, create_or_update_tenant_control_plane,
}
use cluster_api_control_plan.Controller.Reconcile.Progress.{
  Fixed, IsFit, IsServed, IsPublished, IsReached,
}
use cluster_api_control_plan.Controller.Reconcile.Progress.Remote.{renamed-ok}
use cluster_api_control_plan.Controller.Run.{Reconciler}
use cluster_api_control_plan.Controller.Reconcile.Progress.Chain.{Retries-ok}
use cluster_api_control_plan.Controller.Reconcile.Progress.Updates.{default-IsFit}

module _ {F : Foreign} (K : Kube F) (a : Fixed F) {Good : K.World → Type 0}
    {IsFree : List OwnerReference → Type 0} {cluster : Cluster} {remote : Option K.Client}
    (v : IsServed K a Good remote IsFree cluster) where
  mutate-ok :
      (target : Option K.Client) (kcp : KamajiControlPlane F) (tcp : TenantControlPlane F)
      → IsFit K a kcp
      → check_sans a.network.cert_sans ≡ ok tt
      → IsFree tcp.meta.owner_references
      → ((mutate K (is_some target) (client_or_local K target) cluster (tcp, kcp)).0 ≡ ok tt)
  unfolding mutate set_owner tenant_meta
  mutate-ok (some client) kcp tcp i sans free =
      let checked : check_sans kcp.spec.network.cert_sans ≡ ok tt =
        ap (λ (n : NetworkComponent F). check_sans n.cert_sans) i.has_network ∙ sans in
      ground (arith, checked)
  mutate-ok none kcp tcp i sans free =
      let checked : check_sans kcp.spec.network.cert_sans ≡ ok tt =
        ap (λ (n : NetworkComponent F). check_sans n.cert_sans) i.has_network ∙ sans in
      let (m, e) =
        v.owns (with_core_dns_default kcp) (tenant_meta K kcp tcp.meta) (default-IsFit K a kcp i)
          free in
      ground (arith, e, checked)

  mutate-kcp :
      (delegated : Bool) (client : K.Client) (kcp : KamajiControlPlane F)
      (tcp : TenantControlPlane F)
      → (mutate K delegated client cluster (tcp, kcp)).1.1 ≡ with_core_dns_default kcp
  unfolding mutate
  mutate-kcp delegated client kcp tcp = ground arith

  abbrev Made : TenantControlPlane F × KamajiControlPlane F × K.World → Type 0
  Made (tcp, kcp, w) = IsPublished K a tcp × IsFit K a kcp × Good w

  upsert_attempt-ok :
      (r : Reconciler K)
      → IsReached K a Good r remote
      → check_sans a.network.cert_sans ≡ ok tt
      → (s : TenantControlPlane F × KamajiControlPlane F × K.World) → IsFit K a s.1 × Good s.2
      → (s' : TenantControlPlane F × KamajiControlPlane F × K.World) × (upsert_attempt K remote
            cluster s
          ≡ (ok tt, s'))
        × Made s'
  unfolding upsert_attempt
  upsert_attempt-ok r reached sans (tcp, kcp, w) (i, good) =
      let (named, named_is) = renamed-ok K a Good r remote kcp tcp reached i in
      let f = mutate K (is_some remote) (client_or_local K remote) cluster in
      let (old, made, w', e, published, good') =
        v.upserts_tenant (KamajiControlPlane F) f named kcp w good
          (λ t free. mutate-ok remote kcp t i sans free) in
      (
        (made, (f (old, kcp)).1.1, w'),
        ground (arith, named_is, e),
        (
          published,
          subst (IsFit K a) (sym (mutate-kcp (is_some remote) (client_or_local K remote) kcp old))
              (default-IsFit K a kcp i),
          good',
        ),
      )

  pub create_or_update_tenant_control_plane-ok :
      (r : Reconciler K)
      → IsReached K a Good r remote
      → check_sans a.network.cert_sans ≡ ok tt
      → (kcp : KamajiControlPlane F) (w : K.World) → IsFit K a kcp
      → Good w
      → (tcp : TenantControlPlane F) × (kcp' : KamajiControlPlane F) × (w' : K.World)
        × (create_or_update_tenant_control_plane K remote cluster kcp w ≡ (ok tcp, (kcp', w')))
        × Made (tcp, kcp', w')
  unfolding create_or_update_tenant_control_plane
  create_or_update_tenant_control_plane-ok r reached sans kcp w i good =
      let new = record K.zero_tenant {
        meta = record K.zero_tenant.meta { name = kcp.meta.name; namespace = kcp.meta.namespace };
      } in
      let ((tcp, kcp', w'), e, made) =
        Retries-ok (upsert_attempt-ok r reached sans)
          (v.retries (TenantControlPlane F × KamajiControlPlane F × K.World)
            (upsert_attempt K remote cluster) (new, kcp, w))
          (i, good) in
      (tcp, kcp', w', ground (arith, e), made)

  -- A closure for a Secret that succeeds with such variables on any Secret that may be owned.
  abbrev Fills :
      {S : Type 0} → (S → Type 0) → (Secret × S → Result (Unit {0}) × (Secret × S)) → Type 0
  Fills {S} R f =
      (s : S) (secret : Secret)
      → R s
      → IsFree secret.meta.owner_references
      → (f (secret, s)).0 ≡ ok tt

  secret_attempt-ok :
      (S : Type 0) (R : S → Type 0) (f : Secret × S → Result (Unit {0}) × (Secret × S))
      → Fills R f
      → (x : Secret × S × K.World) → R x.1 × Good x.2
      → (y : Secret × S × K.World) × (secret_attempt K S f x ≡ (ok tt, y)) × Good y.2
  unfolding secret_attempt
  secret_attempt-ok S R f fills (secret, t, u) (r, g) =
      let (made, u', e, g') =
        v.upserts_secret S f secret t u g (λ found free. fills t found r free) in
      ((made.0, made.1, u'), ground (arith, e), g')

  upsert_secret-ok :
      (S : Type 0) (R : S → Type 0) (message : String)
      (f : Secret × S → Result (Unit {0}) × (Secret × S)) (new : Secret) (s : S) (w : K.World)
      → Fills R f
      → R s
      → Good w
      → (w' : K.World) × (upsert_secret K S message f new s w ≡ (ok tt, w')) × Good w'
  unfolding upsert_secret
  upsert_secret-ok S R message f new s w fills start good =
      let (x, e, good') =
        Retries-ok (secret_attempt-ok S R f fills)
          (v.retries (Secret × S × K.World) (secret_attempt K S f) (new, s, w)) (start, good) in
      (x.2, ground (arith, e), good')

  mutate_kubeconfig-ok :
      (kcp : KamajiControlPlane F) (tcp : TenantControlPlane F) (fresh : Cluster) (source : Secret)
      {value : Bytes}
      → IsFit K a kcp
      → lookup a.kubeconfig (entries source.contents) ≡ some value
      → Fills (λ _. Unit) (mutate_kubeconfig K fresh kcp tcp source)
  unfolding mutate_kubeconfig own_secret
  mutate_kubeconfig-ok kcp tcp fresh source i found s secret _ free =
      let key : lookup (kubeconfig_key K kcp) (entries source.contents)
          ≡ lookup a.kubeconfig (entries source.contents) =
        ap (λ k. lookup k (entries source.contents)) i.has_kubeconfig in
      let labels = capi_labels K "kubeconfig" fresh tcp (entries secret.meta.labels) in
      let (m, e) = v.owns kcp (with_labels (some labels) secret).meta i free in
      ground (arith, key, found, e)

  abbrev IsAuthority : Secret → Type 0
  IsAuthority source =
      (crt : Bytes) × (key : Bytes) × (lookup "ca.crt" (entries source.contents) ≡ some crt)
      × (lookup "ca.key" (entries source.contents) ≡ some key)

  mutate_ca-ok :
      (kcp : KamajiControlPlane F) (tcp : TenantControlPlane F) (fresh : Cluster)
      → IsFit K a kcp
      → Fills IsAuthority (mutate_ca K fresh kcp tcp)
  unfolding mutate_ca own_secret
  mutate_ca-ok kcp tcp fresh i source secret (crt, key, has_crt, has_key) free =
      let labels = capi_labels K "ca" fresh tcp (entries source.meta.labels) in
      let (m, e) = v.owns kcp (with_labels (some labels) secret).meta i free in
      ground (arith, has_crt, has_key, e)

  create_or_update_kubeconfig-ok :
      (kcp : KamajiControlPlane F) (tcp : TenantControlPlane F) (fresh : Cluster) (w : K.World)
      → IsFit K a kcp
      → IsPublished K a tcp
      → Good w
      → (w' : K.World) × (create_or_update_kubeconfig K (reader_of K remote) fresh kcp tcp w
          ≡ (ok tt, w'))
        × Good w'
  unfolding create_or_update_kubeconfig
  create_or_update_kubeconfig-ok kcp tcp fresh w i p good =
      let (source, w1, e, (value, found), good1) = v.reads_admin w good in
      let (w2, e2, good2) =
        upsert_secret-ok Unit (λ _. Unit) "cannot create or update admin Kubeconfig secret: "
          (mutate_kubeconfig K fresh kcp tcp source)
          (named_secret fresh.meta.namespace (fresh.meta.name <> "-kubeconfig")) tt w1
          (mutate_kubeconfig-ok kcp tcp fresh source i found) tt good1 in
      (w2, ground (arith, e, e2), good2)

  create_or_update_certificate_authority-ok :
      (kcp : KamajiControlPlane F) (tcp : TenantControlPlane F) (fresh : Cluster) (w : K.World)
      → IsFit K a kcp
      → IsPublished K a tcp
      → Good w
      → (w' : K.World) × (create_or_update_certificate_authority K
            (reader_of K remote)
            fresh
            kcp
            tcp
            w
          ≡ (ok tt, w'))
        × Good w'
  unfolding create_or_update_certificate_authority
  create_or_update_certificate_authority-ok kcp tcp fresh w i p good =
      let (source, w1, e, authority, good1) = v.reads_ca w good in
      let (w2, e2, good2) =
        upsert_secret-ok Secret IsAuthority "cannot create or update CA secret: "
          (mutate_ca K fresh kcp tcp) (named_secret fresh.meta.namespace (fresh.meta.name <> "-ca"))
          source w1 (mutate_ca-ok kcp tcp fresh i) authority good1 in
      (w2, ground (arith, e, e2), good2)

  pub create_required_resources-ok :
      ((a.admin_secret == "") ≡ false)
      → ((a.ca_secret == "") ≡ false)
      → (kcp : KamajiControlPlane F) (tcp : TenantControlPlane F) (fresh : Cluster) (w : K.World)
      → IsFit K a kcp
      → IsPublished K a tcp
      → Good w
      → (w' : K.World) × (create_required_resources K remote fresh kcp tcp w ≡ (ok tt, w'))
        × Good w'
  unfolding create_required_resources
  create_required_resources-ok admin ca kcp tcp fresh w i p good =
      let (w1, e1, good1) = create_or_update_kubeconfig-ok kcp tcp fresh w i p good in
      let (w2, e2, good2) = create_or_update_certificate_authority-ok kcp tcp fresh w1 i p good1 in
      (w2, ground (arith, e1, e2), good2)
