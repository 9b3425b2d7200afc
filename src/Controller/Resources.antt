-- ===== src/Controller/Resources.antt =====
-- controllers/kamajicontrolplane_controller_resources.go: the Secrets that Cluster API expects, made
-- of those of Kamaji.
pub mod Laws
use cluster_api_control_plan.Base.{
  String, ◌<>◌, ◌==◌, ◌!=◌, Bool, false, Option, none, some, List, [], ◌∷◌, Entries, GoMap, entries,
  lookup, insert, if◌then◌else◌,
}
use cluster_api_control_plan.Errors.{
  Result, ok, err, wrap, prefixed, new_error, sentinel, err_enqueue_back,
}
use cluster_api_control_plan.Objects.{
  Foreign, KamajiControlPlane, TenantControlPlane, Cluster, Secret, OwnerReference,
}
use cluster_api_control_plan.Kube.{Kube}
use cluster_api_control_plan.Controller.Tenant.{value_or_empty}

-- A Secret of which only the name and the namespace are set.
abbrev pub named_secret : String → String → Secret
named_secret namespace name = record {
  meta = record {
    name = name;
    namespace = namespace;
    uid = "";
    resource_version = "";
    generation = 0;
    labels = none;
    annotations = none;
    owner_references = [];
    finalizers = [];
    deletion_timestamp = none;
  };
  contents = none;
  kind = "";
}

-- A nil map is not written to.
abbrev pub if_made : GoMap String → Entries String → GoMap String
if_made none labels = none
if_made (some m) labels = some labels

abbrev pub with_labels : GoMap String → Secret → Secret
with_labels labels secret = record secret { meta = record secret.meta { labels = labels } }

-- Whether the first owner is a TenantControlPlane.
abbrev pub owned_by_tenant : List OwnerReference → Bool
owned_by_tenant [] = false
owned_by_tenant (o ∷ os) = o.kind == "TenantControlPlane"

module _ {F : Foreign} (K : Kube F) where
  unfoldable pub capi_labels :
      String → Cluster → TenantControlPlane F → Entries String → Entries String
  capi_labels secret cluster tcp m = insert "kamaji.clastix.io/tcp" tcp.meta.name (
      insert "kamaji.clastix.io/cluster" cluster.meta.name (
        insert "kamaji.clastix.io/secret" secret (
          insert "kamaji.clastix.io/component" "capi"
            (insert K.cluster_name_label cluster.meta.name m))))

  -- The key of the admin kubeconfig: the annotation, if it has a value, goes before the choice by
  -- the advertised address.
  unfoldable pub kubeconfig_key : KamajiControlPlane F → String
  kubeconfig_key kcp =
      let v =
        value_or_empty (lookup K.kubeconfig_secret_key_annotation (entries kcp.meta.annotations)) in
      if v != ""
      then v
      else if kcp.spec.network.advertise_address != ""
      then "admin.svc"
      else "admin.conf"

  unfoldable pub own_secret : KamajiControlPlane F → Secret → Result (Unit {0}) × Secret
  own_secret kcp secret = elim (K.set_controller_reference kcp K.local secret.meta) [
    | err e ↦ (err e, secret)
    | ok meta ↦ (ok tt, record secret { meta = meta })
  ]

  -- The closure for the kubeconfig Secret. Labels of an existing map are written in place.
  unfoldable pub mutate_kubeconfig :
      Cluster
      → KamajiControlPlane F
      → TenantControlPlane F
      → Secret
      → Secret × Unit {0}
      → Result (Unit {0}) × (Secret × Unit {0})
  mutate_kubeconfig cluster kcp tcp source (secret, u) =
      let labels = capi_labels "kubeconfig" cluster tcp (entries secret.meta.labels) in
      elim (lookup (kubeconfig_key kcp) (entries source.contents)) [
        | none ↦ (
          err (
              new_error
                "missing key from *kamajiv1alpha1.TenantControlPlane admin kubeconfig secret"),
          (with_labels (if_made secret.meta.labels labels) secret, u),
        )
        | some value ↦
            let (r, owned) = own_secret kcp (record (with_labels (some labels) secret) {
              contents = some (("value", value) ∷ []);
              kind = K.cluster_secret_type;
            }) in
            (r, (owned, u))
      ]

  -- The closure for the Secret of the certificate authority, on that Secret and on Kamaji's. Labels
  -- are those of Kamaji's Secret, written in place if there are any.
  unfoldable pub mutate_ca :
      Cluster
      → KamajiControlPlane F
      → TenantControlPlane F
      → Secret × Secret
      → Result (Unit {0}) × (Secret × Secret)
  mutate_ca cluster kcp tcp (secret, source) =
      if owned_by_tenant secret.meta.owner_references
      then (ok tt, (secret, source))
      else elim (lookup "ca.crt" (entries source.contents)) [
        | none ↦ (
          err (new_error "missing Certificate value from *kamajiv1alpha1.TenantControlPlane CA"),
          (secret, source),
        )
        | some crt ↦ elim (lookup "ca.key" (entries source.contents)) [
          | none ↦ (
            err (new_error "missing Private Key value from *kamajiv1alpha1.TenantControlPlane CA"),
            (secret, source),
          )
          | some key ↦
              let labels = capi_labels "ca" cluster tcp (entries source.meta.labels) in
              let (r, owned) = own_secret kcp (record (with_labels (some labels) secret) {
                contents = some (insert K.tls_private_key_key key (insert K.tls_cert_key crt []));
                kind = K.cluster_secret_type;
              }) in
              (r, (owned, with_labels (if_made source.meta.labels labels) source))
        ]
      ]

  -- One run of the closure of RetryOnConflict, for a Secret and variables of type S.
  unfoldable pub secret_attempt :
      (S : Type 0)
      → (Secret × S → Result (Unit {0}) × (Secret × S))
      → Secret × S × K.World
      → Result (Unit {0}) × (Secret × S × K.World)
  secret_attempt S f (secret, s, w) =
      let (r, (secret1, s1), w1) = K.create_or_update_secret S K.local f (secret, s) w in
      (r, (secret1, s1, w1))

  unfoldable pub upsert_secret :
      (S : Type 0)
      → String
      → (Secret × S → Result (Unit {0}) × (Secret × S))
      → Secret
      → S
      → K.World
      → Result (Unit {0}) × K.World
  unfolding secret_attempt
  upsert_secret S message f secret s w =
      let (r, (secret1, s1, w1)) =
        K.retry_on_conflict (Secret × S × K.World) (secret_attempt S f) (secret, s, w) in
      (wrap message r, w1)

  unfoldable pub create_or_update_kubeconfig :
      K.Client
      → Cluster
      → KamajiControlPlane F
      → TenantControlPlane F
      → K.World
      → Result (Unit {0}) × K.World
  unfolding upsert_secret
  create_or_update_kubeconfig reader cluster kcp tcp w =
      let (found, w1) =
        K.get_secret reader
          (record { namespace = tcp.meta.namespace; name = tcp.status.admin_secret_name }) w in
      elim found [
        | err e ↦ (wrap "cannot retrieve source-of-truth for admin kubeconfig: " (err e), w1)
        | ok source ↦
            upsert_secret Unit "cannot create or update admin Kubeconfig secret: "
              (mutate_kubeconfig cluster kcp tcp source)
              (named_secret cluster.meta.namespace (cluster.meta.name <> "-kubeconfig")) tt w1
      ]

  unfoldable pub create_or_update_certificate_authority :
      K.Client
      → Cluster
      → KamajiControlPlane F
      → TenantControlPlane F
      → K.World
      → Result (Unit {0}) × K.World
  unfolding upsert_secret
  create_or_update_certificate_authority reader cluster kcp tcp w =
      let (found, w1) =
        K.get_secret reader
          (record { namespace = tcp.meta.namespace; name = tcp.status.ca_secret_name }) w in
      elim found [
        | err e ↦ (wrap "cannot retrieve source-of-truth as Certificate Authority: " (err e), w1)
        | ok source ↦
            upsert_secret Secret "cannot create or update CA secret: " (mutate_ca cluster kcp tcp)
              (named_secret cluster.meta.namespace (cluster.meta.name <> "-ca")) source w1
      ]

  abbrev pub reader_of : Option K.Client → K.Client
  reader_of none = K.local
  reader_of (some remote) = remote

  unfoldable pub create_required_resources :
      Option K.Client
      → Cluster
      → KamajiControlPlane F
      → TenantControlPlane F
      → K.World
      → Result (Unit {0}) × K.World
  create_required_resources remote cluster kcp tcp w =
      if tcp.status.admin_secret_name == ""
      then (
        err (prefixed "admin kubeconfig still unprocessed by Kamaji, " (sentinel err_enqueue_back)),
        w,
      )
      else let (r, w1) = create_or_update_kubeconfig (reader_of remote) cluster kcp tcp w in
        elim r [
          | err e ↦ (err e, w1)
          | ok u ↦
              if tcp.status.ca_secret_name == ""
              then (
                err (prefixed "CA still unprocessed by Kamaji, " (sentinel err_enqueue_back)),
                w1,
              )
              else create_or_update_certificate_authority (reader_of remote) cluster kcp tcp w1
        ]
