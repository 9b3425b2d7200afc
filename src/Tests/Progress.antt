-- ===== src/Tests/Progress.antt =====
-- A pass that succeeds, here and in another cluster, on servers that keep the status of a TenantControlPlane to themselves.
use cluster_api_control_plan.Base.{
  ◌≡◌, refl, ap, true, false, some, none, [], ◌∷◌, ◌==◌, Option, inr, lookup,
}
use cluster_api_control_plan.Errors.{ok}
use cluster_api_control_plan.Objects.{
  ExternalClusterReference, KamajiControlPlane, TenantControlPlane, TenantStatus, Cluster, Secret,
  ObjectKey, key_of,
}
use cluster_api_control_plan.Kube.{Kube}
use cluster_api_control_plan.Base.Int.{pos}
use cluster_api_control_plan.Controller.ExternalReference.{external_cluster_reference}
use cluster_api_control_plan.ExternalCluster.Names.{kubeconfig_namespace}
use cluster_api_control_plan.ExternalCluster.Store.{get}
use cluster_api_control_plan.Base.{arith, Bool, ◌&&◌, if◌then◌else◌}
use cluster_api_control_plan.Errors.{err, api_error, not_found}
use cluster_api_control_plan.Controller.Tenant.{check_sans}
use cluster_api_control_plan.Controller.ClusterPatch.Infrastructure.{way_of}
use cluster_api_control_plan.Controller.ClusterPatch.Endpoint.{
  control_plane_endpoint, parse_endpoint, override_hostname, overridden,
}
use cluster_api_control_plan.GoNet.{
  has_char, split_host_port, bracketed, after_bracket, plain as plain_address, split_first,
  split_last, parse_int,
}
use cluster_api_control_plan.Controller.Run.{Reconciler}
use cluster_api_control_plan.Controller.Resources.{kubeconfig_key}
use cluster_api_control_plan.Controller.Reconcile.{reconcile, finished}
use cluster_api_control_plan.Controller.Reconcile.Progress.{
  Fixed, IsFit, IsPublished, IsPatchable, IsServed, IsAttainable, IsHosted,
}
use cluster_api_control_plan.Controller.Reconcile.Progress.Pass.{
  IsAccomplished, reconcile-IsAccomplished,
}
use cluster_api_control_plan.Tests.Fixtures.{
  trivial, kcp, kcp_fields, network, deployment, reference, tenant, cluster, secret,
}
use cluster_api_control_plan.Tests.Memory.{memory, World, retry-IsLawful, conditions-IsLawful}

-- An object whose TenantControlPlane is where the reference says.
abbrev pub referring : Option ExternalClusterReference → KamajiControlPlane trivial
referring reference_to = record kcp {
  meta = record kcp.meta {
    owner_references = record { kind = "Cluster"; name = "demo"; uid = "c1" } ∷ [];
  };
  spec = record kcp.spec {
    fields = record kcp_fields {
      network = record network { ingress = none; gateway = none; cert_sans = [] };
      deployment = record deployment { external_cluster_reference = reference_to };
    };
  };
}

-- The infrastructure cluster is one that the program patches, its status too.
abbrev pub kubevirt : Cluster
kubevirt = record cluster {
  infrastructure_ref = record cluster.infrastructure_ref { kind = "KubevirtCluster" };
}

abbrev served_status : TenantStatus
served_status = record tenant.status { ca_secret_name = "admin" }

-- Kamaji's Secret, besides the one of the reference.
abbrev admin : Secret
admin = record secret {
  meta = record secret.meta { namespace = "tenants"; name = "admin" };
  contents = some (("admin.conf", some "k") ∷ ("ca.crt", some "c") ∷ ("ca.key", some "p") ∷ []);
}

-- The answer has the status and the namespace that the server has.
abbrev answered : TenantControlPlane trivial → TenantControlPlane trivial
answered t = record t { meta = record t.meta { namespace = "tenants" }; status = served_status }

abbrev existing :
    Option (TenantControlPlane trivial) → TenantControlPlane trivial → TenantControlPlane trivial
existing none t = t
existing (some u) t = u

abbrev pub servers : Kube trivial
servers = record memory {
  delete_tenant = λ c key w. (ok tt, record w { tenant = none });
  get_secret = λ c key w. (
    if key.namespace == "tenants" && key.name == "admin"
        then ok admin
        else if key.namespace == secret.meta.namespace && key.name == secret.meta.name
        then ok secret
        else err (api_error not_found "not found"),
    w,
  );
  create_or_update_tenant = λ S c f (t, s) w.
      let (r, (t1, s1)) = f (existing w.tenant t, s) in
      (r, (answered t1, s1), record w { tenant = some (answered t1) });
}

abbrev pub fixed : Option ExternalClusterReference → Fixed trivial
fixed reference_to = record {
  key = key_of kcp.meta;
  reference = reference_to;
  network = (referring reference_to).spec.network;
  kubeconfig = "admin.conf";
  endpoint = served_status.control_plane_endpoint;
  tenant_namespace = "tenants";
  admin_secret = "admin";
  ca_secret = "admin";
  infrastructure = kubevirt.infrastructure_ref;
  cluster_namespace = kubevirt.meta.namespace;
}

module _ (reference_to : Option ExternalClusterReference) where
  pub record IsGood (w : World) : Type 0 where
    pub fits : IsFit servers (fixed reference_to) w.kcp
    pub has_cluster : w.cluster ≡ kubevirt

  answered-IsPublished :
      (t : TenantControlPlane trivial) → IsPublished servers (fixed reference_to) (answered t)
  answered-IsPublished t = record {
    has_endpoint = refl;
    has_version = refl;
    in_namespace = refl;
    has_admin = refl;
    has_ca = refl;
  }

  pub serves :
      (remote : Option Bool)
      → IsServed servers (fixed reference_to) IsGood remote (λ _. Unit) kubevirt
  unfolding lookup
  serves remote = record {
    retries = retry-IsLawful;
    ticks = λ w i. record { fits = i.fits; has_cluster = i.has_cluster };
    reads = λ w i. (
      w.kcp,
      w,
      ap
          (λ (k : ObjectKey). (
            if (fixed reference_to).key.namespace == k.namespace
                  && (fixed reference_to).key.name == k.name
                then ok w.kcp
                else err (api_error not_found "not found"),
            w,
          ))
          i.fits.has_key,
      i.fits,
      i,
    );
    updates = λ w sent i f.
        (sent, record w { kcp = sent }, refl, f, record { fits = f; has_cluster = i.has_cluster });
    updates_status = λ w sent i f. (
      sent,
      record w { kcp = sent },
      refl,
      (f, refl),
      record { fits = f; has_cluster = i.has_cluster },
    );
    reads_cluster = λ w i. (
      kubevirt,
      w,
      ap (λ c. ((servers.get_cluster (key_of kubevirt.meta) (record w { cluster = c })).0, w))
          i.has_cluster,
      record {
        has_host = refl;
        is_provisioned = refl;
        has_infrastructure = refl;
        in_namespace = refl;
      },
      i,
    );
    reads_admin = λ w i. (admin, w, refl, (some "k", refl), i);
    reads_ca = λ w i. (admin, w, refl, (some "c", some "p", refl, refl), i);
    owns = λ k m f free. (_, refl);
    upserts_tenant = λ S f new s w i succeeds. (
      existing w.tenant new,
      answered (f (existing w.tenant new, s)).1.0,
      record w { tenant = some (answered (f (existing w.tenant new, s)).1.0) },
      ap
          (λ r. (
            r,
            (answered (f (existing w.tenant new, s)).1.0, (f (existing w.tenant new, s)).1.1),
            record w { tenant = some (answered (f (existing w.tenant new, s)).1.0) },
          ))
          (succeeds (existing w.tenant new) tt),
      answered-IsPublished (f (existing w.tenant new, s)).1.0,
      record { fits = i.fits; has_cluster = i.has_cluster },
    );
    upserts_secret = λ S f new s w i succeeds.
        ((f (new, s)).1, w, ap (λ r. (r, (f (new, s)).1, w)) (succeeds new tt), i);
  }

  patchable : IsPatchable servers (fixed reference_to) IsGood (λ _. Unit)
  unfolding way_of
  patchable = record {
    patches_status = true;
    is_defined = refl;
    has_way = refl;
    maps = λ w i. (_, w, refl, (λ w i. (_, w, refl, tt, i)), i);
    helps = λ u o. (u, refl);
    sets_map = λ u fields path o. (record u { endpoint = fields }, refl, tt);
    sets_ready = λ u o. (record u { ready = true }, refl);
    patches = λ h u w i. (
      tt,
      record w { infra = u },
      refl,
      tt,
      record { fits = i.fits; has_cluster = i.has_cluster },
    );
  }

abbrev pub reconciler : Reconciler servers
reconciler = record {
  enabled = λ gate. gate == external_cluster_reference;
  dynamic_infrastructure_clusters = λ kind. false;
  store = record {
    store =
        (
          "ns/kc/conf",
          record { resource_version = secret.meta.resource_version; manager = true; stop_func = 1 },
        )
        ∷ [];
    stopped = [];
  };
}

-- A manager runs for the Secret of the reference.
pub hosted : IsHosted servers (fixed (some reference)) (IsGood (some reference)) reconciler true
unfolding get lookup kubeconfig_namespace
hosted = record {
  ref = reference;
  manager = true;
  refers = refl;
  gate_open = refl;
  is_confined = λ off. refl;
  reads_reference = λ w i. (secret, w, refl, (ground arith, refl), i);
  knows_tenants = λ w i. (tt, w, refl, tt, i);
  is_client = refl;
}

pub attainable :
    (reference_to : Option ExternalClusterReference) (r : Reconciler servers)
    → IsAttainable servers (fixed reference_to) (IsGood reference_to) (λ _. Unit) r
unfolding check_sans
attainable reference_to r = record {
  is_checked = refl;
  has_address = refl;
  names_admin = refl;
  names_ca = refl;
  is_patchable = inr (patchable reference_to);
  has_conditions = conditions-IsLawful;
}

abbrev pub world : Option ExternalClusterReference → World
world reference_to = record {
  clock = 5;
  kcp = referring reference_to;
  cluster = kubevirt;
  secret = admin;
  tenant = none;
  infra = record { endpoint = []; ready = false };
}

pub referring-IsFit :
    (reference_to : Option ExternalClusterReference)
    → IsFit servers (fixed reference_to) (referring reference_to)
unfolding kubeconfig_key lookup
referring-IsFit reference_to = record {
  has_key = refl;
  has_network = refl;
  has_kubeconfig = refl;
  has_reference = refl;
}

pub chooses :
    (reference_to : Option ExternalClusterReference)
    → control_plane_endpoint (referring reference_to) "10.0.0.1:6443" ≡ ok ("10.0.0.1", pos 6443)
unfolding control_plane_endpoint parse_endpoint override_hostname overridden split_host_port
    bracketed after_bracket plain_address split_first split_last has_char parse_int
chooses reference_to = refl

-- In the same cluster.
local_pass : (reconcile servers reconciler (key_of kcp.meta) (world none)).0 ≡ finished
local_pass =
    (reconcile-IsAccomplished servers (fixed none) (serves none none) reconciler
      (attainable none reconciler) refl (world none) refl (referring-IsFit none) refl refl
      (record { fits = referring-IsFit none; has_cluster = refl }) refl refl (chooses none)).0

-- In the cluster of the reference.
reconcile-IsAccomplished_example :
    ((reconcile servers reconciler (key_of kcp.meta) (world (some reference))).0 ≡ finished)
    × IsAccomplished servers
        (fixed (some reference))
        (serves (some reference) (some true))
        reconciler
        (attainable (some reference) reconciler)
        (referring (some reference))
        (world (some reference))
        (reconcile servers reconciler (key_of kcp.meta) (world (some reference))).1
reconcile-IsAccomplished_example =
    reconcile-IsAccomplished servers (fixed (some reference)) (serves (some reference) (some true))
      reconciler (attainable (some reference) reconciler) hosted (world (some reference)) refl
      (referring-IsFit (some reference)) refl refl
      (record { fits = referring-IsFit (some reference); has_cluster = refl }) refl refl
      (chooses (some reference))
