-- ===== src/Controller/Reconcile/Progress/Joint.antt =====
-- A pass of the controller of Secrets, and then one of the controller of KamajiControlPlanes.
use cluster_api_control_plan.Base.{
  ◌≡◌, ◌≢◌, String, List, ◌∷◌, some, none, true, false, refl, lookup, entries,
}
use mathlib.Core.Path.{subst⁻¹}
use cluster_api_control_plan.Base.Int.{ℤ}
use cluster_api_control_plan.Errors.{Result, ok}
use cluster_api_control_plan.Objects.{
  Foreign, KamajiControlPlane, Cluster, OwnerReference, Secret, ExternalClusterReference,
}
use cluster_api_control_plan.Kube.{Kube}
use cluster_api_control_plan.ExternalCluster.Names.{kubeconfig_namespace}
use cluster_api_control_plan.ExternalCluster.Store.{get}
use cluster_api_control_plan.Controller.Run.{Reconciler}
use cluster_api_control_plan.Controller.ExternalReference.{
  external_cluster_reference, external_cluster_reference_cross_namespace, value_or_nil,
}
use cluster_api_control_plan.Controller.ClusterPatch.Endpoint.{control_plane_endpoint}
use cluster_api_control_plan.Controller.Managers.{Process, has_none, reconcile_found}
use cluster_api_control_plan.Controller.Managers.Success.{IsAnswered}
use cluster_api_control_plan.Controller.Managers.Service.{IsKeyed, reference_key, found-runs}
use cluster_api_control_plan.Controller.Reconcile.Chain.{finished}
use cluster_api_control_plan.Controller.Reconcile.Main.{reconcile}
use cluster_api_control_plan.Controller.Reconcile.Progress.{
  Fixed, IsFit, IsHosted, IsServed, IsAttainable, Answers,
}
use cluster_api_control_plan.Controller.Reconcile.Progress.Pass.{
  IsAccomplished, reconcile-IsAccomplished,
}

module _ {F : Foreign} (K : Kube F) (a : Fixed F) (Good : K.World → Type 0) (r : Reconciler K)
    (ref : ExternalClusterReference) (secret : Secret) where
  -- The reference is one that the gates let pass; its Secret is always read as this one, and all
  -- clusters of managers know TenantControlPlanes.
  pub record IsKept : Type 0 where
    pub refers : a.reference ≡ some ref
    pub gate_open : r.enabled external_cluster_reference ≡ true
    pub is_confined :
        r.enabled external_cluster_reference_cross_namespace ≡ false
        → kubeconfig_namespace a.key.namespace ref ≡ a.key.namespace
    pub is_keyed : IsKeyed a.key.namespace ref secret
    pub reads_secret :
        (w : K.World)
        → Good w
        → Answers K a Good
            (K.get_secret K.local
              (record {
                namespace = kubeconfig_namespace a.key.namespace ref;
                name = ref.kubeconfig_secret_name;
              })
              w)
            (λ found. found ≡ secret)
    pub knows_tenants :
        (m : K.Manager) (w : K.World)
        → Good w
        → Answers K a Good (K.kind_for_tenants m w) (λ _. Unit)

  kept-IsHosted :
      (i : IsKept) {m : K.Manager}
      → get (reference_key a.key.namespace ref) secret.meta.resource_version r.store
        ≡ (some m, true)
      → IsHosted K a Good r (K.get_client m)
  kept-IsHosted i {m} g = record {
    ref = ref;
    manager = m;
    refers = i.refers;
    gate_open = i.gate_open;
    is_confined = i.is_confined;
    reads_reference = λ w good.
        let (found, w1, e, same, good1) = i.reads_secret w good in
        (
          found,
          w1,
          e,
          subst⁻¹
              (λ (s : Secret).
                (value_or_nil (lookup ref.kubeconfig_secret_key (entries s.contents)) ≢ none)
                × (get (reference_key a.key.namespace ref) s.meta.resource_version r.store
                    ≡ (some m, true)))
              same (i.is_keyed.has_entry, g),
          good1,
        );
    knows_tenants = i.knows_tenants m;
    is_client = refl;
  }

  -- The two controllers together. If the calls of a pass over the Secret of a reference that the
  -- gates let pass are answered, in worlds where the index has fixed answers and lists somebody
  -- under the key of the reference, then the pass succeeds; and with its store, if the Secret is
  -- always read as it was then and the servers answer as described whatever client of a manager is
  -- asked, one pass of `Reconcile` is enough for an object with the reference whose first owner is
  -- the Cluster, which is neither paused nor being deleted, and for which an endpoint can be
  -- chosen.
  pub reconcile_found-reconcile :
      {answer : String → Result (List (KamajiControlPlane F))} {Calm : K.World → Type 0}
      {IsFree : List OwnerReference → Type 0} {cluster : Cluster}
      {IsObject : K.Unstructured → Type 0} (s : Process K)
      → IsAnswered K answer Calm secret
      → Calm s.world
      → has_none K (answer (reference_key a.key.namespace ref)) ≡ false
      → r.store ≡ (reconcile_found K secret s).1.store
      → IsKept
      → (v : (m : K.Manager) → IsServed K a Good (some (K.get_client m)) IsFree cluster)
      → (t : IsAttainable K a Good IsObject r) (w : K.World) {kcp : KamajiControlPlane F}
        {w1 w2 : K.World} {owner : OwnerReference} {owners : List OwnerReference}
        {chosen : String × ℤ}
      → K.get_kcp a.key w ≡ (ok kcp, w1)
      → IsFit K a kcp
      → kcp.meta.owner_references ≡ owner ∷ owners
      → K.get_cluster (record { namespace = kcp.meta.namespace; name = owner.name }) w1
        ≡ (ok cluster, w2)
      → Good w2
      → K.is_paused cluster kcp ≡ false
      → kcp.meta.deletion_timestamp ≡ none
      → control_plane_endpoint kcp a.endpoint ≡ ok chosen
      → ((reconcile_found K secret s).0 ≡ ok tt)
        × ((reconcile K r a.key w).0 ≡ finished)
        × (m : K.Manager) × IsAccomplished K a (v m) r t kcp w2 (reconcile K r a.key w).1
  reconcile_found-reconcile s answered c listed same i v t w read fit owned found good running kept
        parsed =
      let (done, m, g) =
        found-runs K r a.key.namespace ref secret s answered c listed same i.is_keyed in
      let (is, accomplished) =
        reconcile-IsAccomplished K a (v m) r t (kept-IsHosted i g) w read fit owned found good
          running kept parsed in
      (done, is, m, accomplished)
