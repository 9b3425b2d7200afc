-- ===== src/Tests/Memory.antt =====
-- A small Kubernetes in memory, on which the theorems are run: one object of each type.
use cluster_api_control_plan.Objects.{
  Bytes, KamajiControlPlane, TenantControlPlane, Cluster, Secret, Condition, ObjectKey,
  VersionStatus, version_ready, version_upgrading, version_other,
}
use cluster_api_control_plan.Base.{
  ℕ, suc, String, ◌==◌, ◌≡◌, refl, Bool, true, false, ◌&&◌, not, Option, none, some, List, [], ◌∷◌,
  Entries, lookup, contains, if◌then◌else◌, arith, eq_iff, inl, inr, Bool-cases,
}
use cluster_api_control_plan.Base.Int.{ℤ, pos}
use cluster_api_control_plan.Errors.{
  Result, ok, err, api_error, not_found, is_conflict, foreign_error, Result-cases,
}
use cluster_api_control_plan.Kube.{Kube, Nested, text, number, flag}
use cluster_api_control_plan.Kube.Laws.{
  last, again, IsLawfulConditions, IsLawfulSets, IsLawfulRetry, IsLawfulObjects, timeless,
  timeless?,
}
use cluster_api_control_plan.Tests.Fixtures.{trivial, tenant}

pub record Infra : Type 0 where
  pub endpoint : Entries Nested
  pub ready : Bool

pub record World : Type 0 where
  pub clock : ℕ
  pub kcp : KamajiControlPlane trivial
  pub cluster : Cluster
  pub secret : Secret
  pub tenant : Option (TenantControlPlane trivial)
  pub infra : Infra

abbrev missing {ℓ} : {A : Type ℓ} → Result A
missing = err (api_error not_found "not found")

abbrev matches : ObjectKey → String → String → Bool
matches key namespace name = key.namespace == namespace && key.name == name

-- At most two attempts.
unfoldable pub retry : (S : Type 0) → (S → Result (Unit {0}) × S) → S → Result (Unit {0}) × S
retry S f s =
    let (r, s1) = f s in
    elim r [ ok u ↦ (ok u, s1) | err e ↦ if is_conflict e then f s1 else (err e, s1) ]

pub retry-IsLawful : IsLawfulRetry retry
unfolding retry
retry-IsLawful S f s =
    let (r, s1) = f s in
    elim (Result-cases r) [
      | inl (u, q) ↦ last s _ (ground arith)
      | inr (e, q) ↦ elim (Bool-cases (is_conflict e)) [
        | inl y ↦ again e s s1 _ (ground arith) y (last s1 _ (ground arith))
        | inr n ↦ last s _ (ground arith)
      ]
    ]

unfoldable pub find : List Condition → String → Option Condition
find [] t = none
find (c ∷ cs) t = if c.kind == t then some c else find cs t

unfoldable pub set : ℕ → List Condition → Condition → List Condition
set now [] c = record c { last_transition_time = now } ∷ []
set now (d ∷ cs) c =
    if d.kind == c.kind then record c { last_transition_time = now } ∷ cs else d ∷ set now cs c

unfoldable pub remove : List Condition → String → List Condition
remove [] t = []
remove (c ∷ cs) t = let rest = remove cs t in if c.kind == t then rest else c ∷ rest

find-kind : (cs : List Condition) (t : String) (c : Condition) → find cs t ≡ some c → c.kind ≡ t
unfolding find
find-kind [] t c h = ground arith
find-kind (d ∷ cs) t c h = ground (arith, eq_iff d.kind t, find-kind cs t c)

find-set :
    (now : ℕ) (cs : List Condition) (c : Condition) (t : String)
    → timeless? (find (set now cs c) t)
      ≡ (if c.kind == t then some (timeless c) else timeless? (find cs t))
unfolding find set
find-set now [] c t = ground arith
find-set now (d ∷ cs) c t =
    ground (arith, find-set now cs c t, eq_iff d.kind c.kind, eq_iff d.kind t, eq_iff c.kind t)

find-remove :
    (cs : List Condition) (t u : String)
    → find (remove cs t) u ≡ (if t == u then none else find cs u)
unfolding find remove
find-remove [] t u = ground arith
find-remove (d ∷ cs) t u =
    ground (arith, find-remove cs t u, eq_iff d.kind t, eq_iff d.kind u, eq_iff t u)

pub conditions-IsLawful : IsLawfulConditions find set remove
conditions-IsLawful = record {
  find-kind = find-kind;
  find-set = find-set;
  find-remove = find-remove;
}

abbrev pub has : List String → String → Bool
has s x = contains x s

abbrev pub add : List String → String → List String
add s x = x ∷ s

unfoldable pub drop : List String → String → List String
drop [] x = []
drop (y ∷ s) x = let rest = drop s x in if x == y then rest else y ∷ rest

has-drop : (s : List String) (x y : String) → has (drop s x) y ≡ (not (x == y) && has s y)
unfolding contains drop
has-drop [] x y = ground arith
has-drop (z ∷ s) x y = ground (arith, has-drop s x y, eq_iff x z, eq_iff z y, eq_iff x y)

pub sets-IsLawful : IsLawfulSets {Set = List String} (λ s. s) has add drop (λ s. s)
unfolding contains
sets-IsLawful = record {
  has-new = λ _ _. refl;
  has-add = λ _ _ _. refl;
  has-drop = has-drop;
  contains-members = λ _ _. refl;
}

-- The last name of a path is the field of the endpoint.
unfoldable pub field_of : List String → String
field_of [] = ""
field_of (x ∷ []) = x
field_of (x ∷ y ∷ xs) = field_of (y ∷ xs)

abbrev as_text : Option Nested → Result String
as_text (some (text s)) = ok s
as_text none = ok ""
as_text _ = err (foreign_error "not a text")

abbrev as_number : Option Nested → Result ℤ
as_number (some (number n)) = ok n
as_number none = ok (pos 0)
as_number _ = err (foreign_error "not a number")

abbrev with_flag : Nested → Infra → Infra
with_flag (flag b) u = record u { ready = b }
with_flag _ u = u

abbrev version_text : VersionStatus → String
version_text version_ready = "Ready"
version_text version_upgrading = "Upgrading"
version_text (version_other s) = s

abbrev existing {ℓ} : {A : Type ℓ} → Option A → A → A
existing none a = a
existing (some b) a = b

abbrev pub memory : Kube trivial
memory = record {
  World = World;
  now = λ w. (w.clock, record w { clock = suc w.clock });
  Client = Bool;
  local = false;
  get_kcp =
      λ key w. (if matches key w.kcp.meta.namespace w.kcp.meta.name then ok w.kcp else missing, w);
  update_kcp = λ k w. (ok k, record w { kcp = k });
  update_kcp_status = λ k w. (ok k, record w { kcp = k });
  list_kcps = λ i v w. (ok (w.kcp ∷ []), w);
  list_secrets = λ i v w. (ok (w.secret ∷ []), w);
  get_cluster = λ key w. (
    if matches key w.cluster.meta.namespace w.cluster.meta.name then ok w.cluster else missing,
    w,
  );
  get_secret = λ c key w.
      (if matches key w.secret.meta.namespace w.secret.meta.name then ok w.secret else missing, w);
  get_tenant = λ c key w. (
    elim w.tenant [
      | none ↦ missing
      | some t ↦ if matches key t.meta.namespace t.meta.name then ok t else missing
    ],
    w,
  );
  delete_tenant = λ c key w. (
    elim w.tenant [
      | none ↦ missing
      | some t ↦ if matches key t.meta.namespace t.meta.name then ok tt else missing
    ],
    record w { tenant = none },
  );
  retry_on_conflict = retry;
  zero_tenant = tenant;
  create_or_update_tenant = λ S c f (t, s) w.
      let (r, (t1, s1)) = f (existing w.tenant t, s) in
      (r, (t1, s1), record w { tenant = some t1 });
  create_or_update_secret = λ S c f x w. let (r, y) = f x in (r, y, w);
  set_controller_reference = λ k c m. ok (record m {
    owner_references =
        record { kind = "KamajiControlPlane"; name = k.meta.name; uid = k.meta.uid } ∷ [];
  });
  find_status_condition = find;
  set_status_condition = set;
  remove_status_condition = remove;
  is_paused = λ c k. false;
  is_defined = λ ref. true;
  GroupVersionKind = String;
  rest_mapping = λ g k w. (ok k, w);
  Unstructured = Infra;
  get_unstructured = λ g key w. (ok w.infra, w);
  get_kind = λ u. "ProxmoxCluster";
  nested_string = λ u path. as_text (lookup (field_of path) u.endpoint);
  nested_int64 = λ u path. as_number (lookup (field_of path) u.endpoint);
  set_nested_map = λ u fields path. ok (record u { endpoint = fields });
  set_nested_field = λ u v path. ok (with_flag v u);
  Helper = Infra;
  new_helper = λ u. ok u;
  patch = λ h u w. (ok tt, record w { infra = u });
  Manager = Bool;
  get_client = λ m. m;
  Config = Bytes;
  rest_config = λ b. ok b;
  new_manager = λ c w. (ok true, w);
  complete = λ m kind skip w. (ok tt, w);
  with_cancel = λ w. (w.clock, record w { clock = suc w.clock });
  kind_for_tenants = λ m w. (ok tt, w);
  StringSet = List String;
  new_set = λ s. s;
  set_has = has;
  set_insert = add;
  set_delete = drop;
  unsorted_list = λ s. s;
  kubeconfig_secret_key_annotation = "kamaji.clastix.io/kubeconfig-secret-key";
  last_applied_config_annotation = "kubectl.kubernetes.io/last-applied-configuration";
  cluster_name_label = "cluster.x-k8s.io/cluster-name";
  cluster_secret_type = "cluster.x-k8s.io/secret";
  tls_cert_key = "tls.crt";
  tls_private_key_key = "tls.key";
  version_text = version_text;
}

endpoint-with_flag : (v : Nested) (u : Infra) → (with_flag v u).endpoint ≡ u.endpoint
endpoint-with_flag (flag b) u = refl
endpoint-with_flag (text s) u = refl
endpoint-with_flag (number n) u = refl

pub memory-IsLawfulObjects : IsLawfulObjects memory
unfolding field_of
memory-IsLawfulObjects = record {
  string-set_map = λ u u' fields key h e l. ground arith;
  int64-set_map = λ u u' fields key p e l. ground arith;
  string-set_status = λ u u' v path e. ground (arith, endpoint-with_flag v u);
  int64-set_status = λ u u' v path e. ground (arith, endpoint-with_flag v u);
}
