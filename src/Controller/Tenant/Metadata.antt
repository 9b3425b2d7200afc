-- ===== src/Controller/Tenant/Metadata.antt =====
-- Annotations and labels.
use cluster_api_control_plan.Base.{
  String, ◌==◌, ◌!=◌, Option, none, some, [], ◌∷◌, Entries, entries, lookup, insert, erase,
  if◌then◌else◌,
}
use cluster_api_control_plan.Objects.{Foreign, KamajiControlPlane, ObjectMeta}
use cluster_api_control_plan.Kube.{Kube}

-- m[k] for a text, "" if it is missing
abbrev pub value_or_empty : Option String → String
value_or_empty none = ""
value_or_empty (some v) = v

-- The loop over the annotations of the KamajiControlPlane, but for one key.
unfoldable pub copy_annotations : String → Entries String → Entries String → Entries String
copy_annotations skipped [] to = to
copy_annotations skipped ((k, v) ∷ from) to =
    copy_annotations skipped from (if k == skipped then to else insert k v to)

-- The annotation that names the key of the kubeconfig is set, or deleted if it is empty.
unfoldable pub set_kubeconfig_key : String → String → Entries String → Entries String
set_kubeconfig_key key value to = if value != "" then insert key value to else erase key to

module _ {F : Foreign} (K : Kube F) where
  unfoldable pub tenant_annotations : Entries String → Entries String → Entries String
  unfolding copy_annotations set_kubeconfig_key
  tenant_annotations from to =
      set_kubeconfig_key K.kubeconfig_secret_key_annotation
        (value_or_empty (lookup K.kubeconfig_secret_key_annotation from))
        (copy_annotations K.last_applied_config_annotation from to)

  -- A nil map is replaced by an empty one first.
  unfoldable pub tenant_meta : KamajiControlPlane F → ObjectMeta → ObjectMeta
  unfolding tenant_annotations
  tenant_meta kcp meta = record meta {
    annotations =
        some (tenant_annotations (entries kcp.meta.annotations) (entries meta.annotations));
    labels = kcp.meta.labels;
  }
