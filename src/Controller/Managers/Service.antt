-- ===== src/Controller/Managers/Service.antt =====
-- What the controller of Secrets does for the one of KamajiControlPlanes: the managers that the one
-- adds to the store are those that the other looks for.
use cluster_api_control_plan.Base.{
  String, ◌≡◌, refl, ◌≢◌, true, false, none, some, lookup, entries, List, inl, inr, Option-cases,
  arith, eq_refl, All, ◌⊎◌, contains,
}
use cluster_api_control_plan.Errors.{Result, ok}
use cluster_api_control_plan.Objects.{Foreign, KamajiControlPlane, ExternalClusterReference, Secret}
use cluster_api_control_plan.Kube.{Kube}
use cluster_api_control_plan.ExternalCluster.Names.{
  key_name, kubeconfig_namespace, generate_key_name_from_kamaji, generate_key_name_from_secret,
}
use cluster_api_control_plan.ExternalCluster.Names.Laws.{IsPlain, contains-secret_keys}
use cluster_api_control_plan.ExternalCluster.Store.{get}
use cluster_api_control_plan.Controller.Run.{Reconciler}
use cluster_api_control_plan.Controller.ExternalReference.{
  external_cluster_reference, external_cluster_reference_cross_namespace, value_or_nil,
  extract_remote_client,
}
use cluster_api_control_plan.Controller.ExternalReference.Laws.{
  secret_key, IsExtracted, IsExtracted-extract_remote_client,
}
use cluster_api_control_plan.Controller.Managers.{Process, has_none, reconcile_found}
use cluster_api_control_plan.Controller.Managers.Success.{IsAnswered, ok-reconcile_found}
use cluster_api_control_plan.Controller.Managers.Stability.{wanted-running}

-- The key of a reference from a namespace.
abbrev pub reference_key : String → ExternalClusterReference → String
reference_key namespace ref =
    key_name (kubeconfig_namespace namespace ref) ref.kubeconfig_secret_name
      ref.kubeconfig_secret_key

-- A Secret that is the one of a reference from a namespace, and has the entry; its keys are split as
-- they were made.
pub record IsKeyed (namespace : String) (ref : ExternalClusterReference) (secret : Secret)
    : Type 0 where
  pub in_namespace : secret.meta.namespace ≡ kubeconfig_namespace namespace ref
  pub has_name : secret.meta.name ≡ ref.kubeconfig_secret_name
  pub are_plain :
      All (λ (j, _). IsPlain secret.meta.namespace secret.meta.name j) (entries secret.contents)
  pub is_plain :
      IsPlain
        (kubeconfig_namespace namespace ref)
        ref.kubeconfig_secret_name
        ref.kubeconfig_secret_key
  pub has_entry : value_or_nil (lookup ref.kubeconfig_secret_key (entries secret.contents)) ≢ none

module _ {F : Foreign} (K : Kube F) where
  -- A reference that the gates let pass, to an entry of a Secret that is there to be read.
  pub record IsReferenced (r : Reconciler K) (kcp : KamajiControlPlane F)
      (ref : ExternalClusterReference) (secret : Secret) (w w1 : K.World) : Type 0 where
    pub refers : kcp.spec.deployment.external_cluster_reference ≡ some ref
    pub gate_open : r.enabled external_cluster_reference ≡ true
    pub is_permitted :
        (r.enabled external_cluster_reference_cross_namespace ≡ true)
        ⊎ (kubeconfig_namespace kcp.meta.namespace ref ≡ kcp.meta.namespace)
    pub is_read : K.get_secret K.local (secret_key kcp ref) w ≡ (ok secret, w1)
    pub is_keyed : IsKeyed kcp.meta.namespace ref secret

  -- The key of the reference is among those of the Secret.
  key-contains :
      (namespace : String) (ref : ExternalClusterReference) (secret : Secret)
      → IsKeyed namespace ref secret
      → contains (reference_key namespace ref) (generate_key_name_from_secret secret) ≡ true
  key-contains namespace ref secret i =
      let all =
        contains-secret_keys (kubeconfig_namespace namespace ref) ref.kubeconfig_secret_name
          ref.kubeconfig_secret_key secret i.is_plain i.are_plain in
      ground (
        arith,
        all,
        i.in_namespace,
        i.has_name,
        i.has_entry,
        eq_refl secret.meta.namespace,
        eq_refl secret.meta.name,
      )

  entry-runs :
      (r : Reconciler K) (key rv : String)
      → (get key rv r.store).1 ≡ true
      → (m : K.Manager) × (get key rv r.store ≡ (some m, true))
  unfolding get
  entry-runs r key rv h = elim (Option-cases (lookup key r.store.store)) [
    | inl n ↦ ground arith
    | inr (v, e) ↦ (v.manager, ground arith)
  ]

  extracted :
      (r : Reconciler K) (kcp : KamajiControlPlane F) (ref : ExternalClusterReference)
      (secret : Secret) (w w1 : K.World) (m : K.Manager)
      → IsReferenced r kcp ref secret w w1
      → get (reference_key kcp.meta.namespace ref) secret.meta.resource_version r.store
        ≡ (some m, true)
      → (K.kind_for_tenants m w1).0 ≡ ok tt
      → IsExtracted K r kcp w (K.get_client m) (K.kind_for_tenants m w1).1
  unfolding generate_key_name_from_kamaji
  extracted r kcp ref secret w w1 m i g served = record {
    ref = ref;
    secret = secret;
    manager = m;
    key = reference_key kcp.meta.namespace ref;
    w1 = w1;
    refers = i.refers;
    gate_open = i.gate_open;
    is_confined = λ off. elim i.is_permitted [ inl y ↦ ground (arith, y, off) | inr e ↦ e ];
    is_read = i.is_read;
    has_entry = i.is_keyed.has_entry;
    is_keyed = ground (arith, i.refers);
    is_running = g;
    is_served = ground (arith, served);
    is_client = refl;
  }

  -- If the calls of a pass over the Secret are answered, and the index lists somebody under the key of
  -- the reference, then the pass succeeds and its store has a manager under that key.
  pub found-runs :
      {answer : String → Result (List (KamajiControlPlane F))} {Calm : K.World → Type 0}
      (r : Reconciler K) (namespace : String) (ref : ExternalClusterReference) (secret : Secret)
      (s : Process K)
      → IsAnswered K answer Calm secret
      → Calm s.world
      → has_none K (answer (reference_key namespace ref)) ≡ false
      → r.store ≡ (reconcile_found K secret s).1.store
      → IsKeyed namespace ref secret
      → ((reconcile_found K secret s).0 ≡ ok tt)
        × (m : K.Manager) × (get (reference_key namespace ref) secret.meta.resource_version r.store
            ≡ (some m, true))
  found-runs r namespace ref secret s answered c listed same i =
      let done = ok-reconcile_found K answered s c in
      let runs =
        wanted-running K answered.is_calm secret s {s' = (reconcile_found K secret s).1}
          (reference_key namespace ref) c (ground (arith, done))
          (key-contains namespace ref secret i) listed in
      let (m, g) =
        entry-runs r (reference_key namespace ref) secret.meta.resource_version
          (ground (arith, runs, same)) in
      (done, m, g)

  -- Between the two controllers: if the calls of a pass over a Secret are answered, in worlds where
  -- the index has fixed answers and lists somebody under the key of a KamajiControlPlane's reference,
  -- then the pass succeeds, and with its store the KamajiControlPlane's reconciliation, which reads
  -- the same version of the Secret with the gates open, gets the client of a manager, if the clusters
  -- of managers know TenantControlPlanes.
  pub reconcile_found-serves :
      {answer : String → Result (List (KamajiControlPlane F))} {Calm : K.World → Type 0}
      (r : Reconciler K) (kcp : KamajiControlPlane F) (ref : ExternalClusterReference)
      (secret : Secret) (s : Process K) {w w1 : K.World}
      → IsAnswered K answer Calm secret
      → Calm s.world
      → has_none K (answer (reference_key kcp.meta.namespace ref)) ≡ false
      → r.store ≡ (reconcile_found K secret s).1.store
      → IsReferenced r kcp ref secret w w1
      → ((m : K.Manager) → (K.kind_for_tenants m w1).0 ≡ ok tt)
      → ((reconcile_found K secret s).0 ≡ ok tt)
        × (m : K.Manager) × (extract_remote_client K r kcp w
            ≡ (ok (K.get_client m), (K.kind_for_tenants m w1).1))
        × (get (reference_key kcp.meta.namespace ref) secret.meta.resource_version r.store
            ≡ (some m, true))
  reconcile_found-serves r kcp ref secret s {w} {w1} answered c listed same i serves =
      let (done, m, g) =
        found-runs r kcp.meta.namespace ref secret s answered c listed same i.is_keyed in
      (
        done,
        m,
        IsExtracted-extract_remote_client K r kcp w
            (extracted r kcp ref secret w w1 m i g (serves m)),
        g,
      )
