-- ===== src/Controller/Resources/Laws.antt =====
-- What is in the Secrets when their closures have succeeded.
use cluster_api_control_plan.Controller.Resources.{
  with_labels, capi_labels, own_secret, kubeconfig_key, mutate_kubeconfig, mutate_ca,
  owned_by_tenant,
}
use cluster_api_control_plan.Base.{
  String, ◌==◌, ◌≡◌, true, false, some, [], ◌∷◌, ◌⊎◌, inl, inr, Bool-cases, Option-cases, lookup,
  insert, entries, arith, eq_refl, eq_iff, lookup-insert,
}
use cluster_api_control_plan.Errors.{ok, Result-cases}
use cluster_api_control_plan.Objects.{
  Foreign, KamajiControlPlane, TenantControlPlane, Cluster, Secret, Bytes,
}
use cluster_api_control_plan.Kube.{Kube}

lookup-pair :
    (j k : String) (v w : Bytes)
    → (j == k) ≡ false
    → (lookup j (insert k w (insert j v [])) ≡ some v)
      × (lookup k (insert k w (insert j v [])) ≡ some w)
lookup-pair j k v w h = (
  ground (
    arith,
    lookup-insert k j w (insert j v []),
    lookup-insert j j v [],
    eq_refl j,
    eq_iff k j,
    eq_iff j k,
  ),
  ground (arith, lookup-insert k k w (insert j v []), eq_refl k),
)

module _ {F : Foreign} (K : Kube F) where
  contents-own_secret :
      (kcp : KamajiControlPlane F) (secret : Secret)
      → ((own_secret K kcp secret).1.contents ≡ secret.contents)
        × ((own_secret K kcp secret).1.kind ≡ secret.kind)
  unfolding own_secret
  contents-own_secret kcp secret =
      elim (Result-cases (K.set_controller_reference kcp K.local secret.meta)) [
        | inl (m, q) ↦ (ground arith, ground arith)
        | inr (e, q) ↦ (ground arith, ground arith)
      ]

  -- When the closure for the kubeconfig succeeds, Kamaji's Secret has an entry under the chosen key,
  -- and the Secret has exactly that entry's value, under "value", and Cluster API's type.
  pub mutate_kubeconfig-contents :
      (cluster : Cluster) (kcp : KamajiControlPlane F) (tcp : TenantControlPlane F)
      (source secret : Secret) {secret' : Secret} {u : Unit {0}}
      → mutate_kubeconfig K cluster kcp tcp source (secret, tt) ≡ (ok tt, (secret', u))
      → (value : Bytes) × (lookup (kubeconfig_key K kcp) (entries source.contents) ≡ some value)
        × (secret'.contents ≡ some (("value", value) ∷ []))
        × (secret'.kind ≡ K.cluster_secret_type)
  unfolding mutate_kubeconfig
  mutate_kubeconfig-contents cluster kcp tcp source secret h =
      elim (Option-cases (lookup (kubeconfig_key K kcp) (entries source.contents))) [
        | inl q ↦ ground arith
        | inr (value, q) ↦
            let made : Secret =
              record (with_labels
                (some (capi_labels K "kubeconfig" cluster tcp (entries secret.meta.labels)))
                secret) { contents = some (("value", value) ∷ []); kind = K.cluster_secret_type } in
            let kept = contents-own_secret kcp made in
            (value, q, ground (arith, kept), ground (arith, kept))
      ]

  -- When the closure for the certificate authority succeeds, either the Secret's first owner is a
  -- TenantControlPlane and nothing was changed, or the Secret has the certificate and the private
  -- key of Kamaji's Secret under the keys of a TLS Secret, if those two keys differ.
  pub mutate_ca-contents :
      (cluster : Cluster) (kcp : KamajiControlPlane F) (tcp : TenantControlPlane F)
      (secret source : Secret) {secret' source' : Secret}
      → (K.tls_cert_key == K.tls_private_key_key) ≡ false
      → mutate_ca K cluster kcp tcp (secret, source) ≡ (ok tt, (secret', source'))
      → ((owned_by_tenant secret.meta.owner_references ≡ true)
          × (secret' ≡ secret)
          × (source' ≡ source))
        ⊎ ((crt key : Bytes) × (lookup "ca.crt" (entries source.contents) ≡ some crt)
            × (lookup "ca.key" (entries source.contents) ≡ some key)
            × (lookup K.tls_cert_key (entries secret'.contents) ≡ some crt)
            × (lookup K.tls_private_key_key (entries secret'.contents) ≡ some key)
            × (secret'.kind ≡ K.cluster_secret_type))
  unfolding mutate_ca
  mutate_ca-contents cluster kcp tcp secret source differ h =
      elim (Bool-cases (owned_by_tenant secret.meta.owner_references)) [
        | inl y ↦ inl (y, ground arith, ground arith)
        | inr n ↦ elim (Option-cases (lookup "ca.crt" (entries source.contents))) [
          | inl q ↦ ground arith
          | inr (crt, q) ↦ elim (Option-cases (lookup "ca.key" (entries source.contents))) [
            | inl p ↦ ground arith
            | inr (key, p) ↦
                let contents = insert K.tls_private_key_key key (insert K.tls_cert_key crt []) in
                let made : Secret =
                  record (with_labels
                    (some (capi_labels K "ca" cluster tcp (entries source.meta.labels))) secret) {
                      contents = some contents;
                      kind = K.cluster_secret_type;
                    } in
                let kept = contents-own_secret kcp made in
                let (first, second) =
                  lookup-pair K.tls_cert_key K.tls_private_key_key crt key differ in
                inr (
                  crt,
                  key,
                  q,
                  p,
                  ground (arith, kept, first),
                  ground (arith, kept, second),
                  ground (arith, kept),
                )
          ]
        ]
      ]
