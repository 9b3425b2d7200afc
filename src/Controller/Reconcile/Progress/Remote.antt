-- ===== src/Controller/Reconcile/Progress/Remote.antt =====
-- The client of the other cluster is found, and the object gets its finalizer.
use cluster_api_control_plan.Base.{
  ◌≡◌, ◌∙◌, ◌<>◌, refl, ap, arith, List, Option, none, some, Bool-cases, inl, inr, is_some,
}
use cluster_api_control_plan.Errors.{ok}
use cluster_api_control_plan.Objects.{
  Foreign, KamajiControlPlane, TenantControlPlane, Cluster, OwnerReference, ObjectKey,
}
use cluster_api_control_plan.Kube.{Kube}
use cluster_api_control_plan.ExternalCluster.Names.{
  remote_tcp_prefix, key_name, kubeconfig_namespace, generate_key_name_from_kamaji,
  generate_remote_tenant_control_plane_names,
}
use cluster_api_control_plan.Controller.Run.{Run, Reconciler}
use cluster_api_control_plan.Controller.Conditions.{found_external_cluster_reference}
use cluster_api_control_plan.Controller.ExternalReference.{extract_remote_client}
use cluster_api_control_plan.Controller.ExternalReference.Laws.{
  IsExtracted, IsExtracted-extract_remote_client,
}
use cluster_api_control_plan.Controller.Finalizer.{
  ecr_finalizer, with_finalizers, add_attempt, handle_finalizer,
}
use cluster_api_control_plan.Controller.Tenant.{renamed}
use cluster_api_control_plan.Controller.Resources.{kubeconfig_key}
use cluster_api_control_plan.Controller.Reconcile.Chain.{failed, or_return, pure, ◌>>◌, Exec}
use cluster_api_control_plan.Controller.Reconcile.Steps.{remote_step, tracked, on_world, on_kcp}
use cluster_api_control_plan.Controller.Reconcile.Progress.{
  Fixed, IsFit, IsHosted, IsReached, IsServed,
}
use cluster_api_control_plan.Controller.Reconcile.Progress.Chain.{
  Proceeds, Proceeds-bind, Proceeds-tracked, Retries-ok,
}
use cluster_api_control_plan.Controller.Reconcile.Progress.Updates.{read-own}

module _ {F : Foreign} (K : Kube F) (a : Fixed F) where
  pub finalizers-IsFit :
      {kcp : KamajiControlPlane F} (set : K.StringSet)
      → IsFit K a kcp
      → IsFit K a (with_finalizers K set kcp)
  unfolding kubeconfig_key
  finalizers-IsFit set i = record {
    has_key = i.has_key;
    has_network = i.has_network;
    has_kubeconfig = i.has_kubeconfig;
    has_reference = i.has_reference;
  }

  -- The TenantControlPlane gets its name in the cluster where it is.
  pub renamed-ok :
      (Good : K.World → Type 0) (r : Reconciler K) (remote : Option K.Client)
      (kcp : KamajiControlPlane F) (tcp : TenantControlPlane F)
      → IsReached K a Good r remote
      → IsFit K a kcp
      → (named : TenantControlPlane F) × (renamed K (is_some remote) kcp tcp ≡ ok named)
  unfolding renamed generate_remote_tenant_control_plane_names
  renamed-ok Good r none kcp tcp h i = (tcp, refl)
  renamed-ok Good r (some client) kcp tcp h i =
      let refers : kcp.spec.deployment.external_cluster_reference ≡ some h.ref =
        i.has_reference ∙ h.refers in
      (
        record tcp {
          meta = record tcp.meta {
            name = remote_tcp_prefix <> kcp.meta.uid;
            namespace = h.ref.deployment_namespace;
          };
        },
        ground (arith, refers),
      )

  module _ {Good : K.World → Type 0} (r : Reconciler K) where
    pub extracted :
        {client : K.Client} (h : IsHosted K a Good r client) (kcp : KamajiControlPlane F)
        (w : K.World)
        → Good w
        → IsFit K a kcp
        → (w' : K.World) × (IsExtracted K r kcp w client w') × Good w'
    unfolding generate_key_name_from_kamaji
    extracted h kcp w good i =
        let same : kcp.meta.namespace ≡ a.key.namespace =
          ap (λ (k : ObjectKey). k.namespace) i.has_key in
        let place : kubeconfig_namespace kcp.meta.namespace h.ref
            ≡ kubeconfig_namespace a.key.namespace h.ref =
          ap (λ n. kubeconfig_namespace n h.ref) same in
        let (secret, w1, e1, (has, runs), good1) = h.reads_reference w good in
        let (u, w2, e2, _, good2) = h.knows_tenants w1 good1 in
        (
          w2,
          record {
            ref = h.ref;
            secret = secret;
            manager = h.manager;
            key =
                key_name (kubeconfig_namespace a.key.namespace h.ref) h.ref.kubeconfig_secret_name
                  h.ref.kubeconfig_secret_key;
            w1 = w1;
            refers = i.has_reference ∙ h.refers;
            gate_open = h.gate_open;
            is_confined = λ off. ground (arith, h.is_confined off, same, place);
            is_read =
                ap
                  (λ n.
                    K.get_secret K.local
                      (record { namespace = n; name = h.ref.kubeconfig_secret_name }) w)
                  place
                ∙ e1;
            has_entry = has;
            is_keyed = ground (arith, i.has_reference, h.refers, place);
            is_running = runs;
            is_served = e2;
            is_client = h.is_client;
          },
          good2,
        )

  module _ {Good : K.World → Type 0} {IsFree : List OwnerReference → Type 0} {cluster : Cluster}
      {remote : Option K.Client} (v : IsServed K a Good remote IsFree cluster) where
    add_attempt-ok :
        (s : K.StringSet × KamajiControlPlane F × K.World)
        → IsFit K a s.1 × Good s.2
        → (s' : K.StringSet × KamajiControlPlane F × K.World) × (add_attempt K s ≡ (ok tt, s'))
          × (IsFit K a s'.1 × Good s'.2)
    unfolding add_attempt
    add_attempt-ok (set, kcp, w) (i, good) =
        let (fresh, w1, e1, i1, good1) = read-own K a v kcp w good i in
        let set1 = K.set_insert set ecr_finalizer in
        let (answer, w2, e2, i2, good2) =
          v.updates w1 (with_finalizers K set1 fresh) good1 (finalizers-IsFit set1 i1) in
        ((set1, answer, w2), ground (arith, e1, e2), (i2, good2))

    handle_finalizer-ok :
        (kcp : KamajiControlPlane F) (w : K.World)
        → Good w
        → IsFit K a kcp
        → (kcp' : KamajiControlPlane F) × (w' : K.World) × (handle_finalizer K kcp w
            ≡ (ok tt, (kcp', w')))
          × (IsFit K a kcp' × Good w')
    unfolding handle_finalizer
    handle_finalizer-ok kcp w good i =
        let set = K.new_set kcp.meta.finalizers in
        elim (Bool-cases (K.set_has set ecr_finalizer)) [
          | inl y ↦ (kcp, w, ground (arith, y), (i, good))
          | inr n ↦
              let ((_, kcp', w'), e, h) =
                Retries-ok add_attempt-ok
                  (v.retries (K.StringSet × KamajiControlPlane F × K.World) (add_attempt K)
                    (set, kcp, w))
                  (i, good) in
              (kcp', w', ground (arith, n, e), h)
        ]

    -- The client is the one for the object's reference.
    pub remote-Proceeds :
        (r : Reconciler K) (o : Option K.Client) (run : Run K)
        → IsReached K a Good r o
        → Good run.world × IsFit K a run.kcp
        → Proceeds K
            (remote_step K r)
            run
            (λ x run'. (x ≡ o) × (Good run'.world × IsFit K a run'.kcp))
    unfolding remote_step
    remote-Proceeds r none run h (good, i) =
        (none, run, ground (arith, i.has_reference, h), (refl, (good, i)))
    remote-Proceeds r (some client) run h (good, i) =
        let refers : run.kcp.spec.deployment.external_cluster_reference ≡ some h.ref =
          i.has_reference ∙ h.refers in
        let (w1, x, good1) = extracted r h run.kcp run.world good i in
        let finish : K.Client → Exec K (Option K.Client) =
          λ c. or_return failed (on_kcp K (handle_finalizer K)) >> pure (some c) in
        let (c, run', e, p) =
          Proceeds-bind K
            (tracked K found_external_cluster_reference failed
              (on_world K (extract_remote_client K r)))
            finish {run = run}
            {Q = λ o' run'. (o' ≡ some client) × (Good run'.world × IsFit K a run'.kcp)}
            (Proceeds-tracked K Good v.ticks found_external_cluster_reference failed
              (on_world K (extract_remote_client K r)) (λ c kcp. (c ≡ client) × IsFit K a kcp)
              (
                client,
                record run { world = w1 },
                ground (arith, IsExtracted-extract_remote_client K r run.kcp run.world x),
                (good1, (refl, i)),
              ))
            (λ c run1 (good2, (same, i2)).
              let (kcp', w', e', (i3, good3)) = handle_finalizer-ok run1.kcp run1.world good2 i2 in
              (
                some c,
                record run1 { kcp = kcp'; world = w' },
                ground (arith, e'),
                (ap some same, (good3, i3)),
              )) in
        (c, run', ground (arith, refers, e), p)
