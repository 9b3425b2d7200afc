-- ===== src/Startup/Calls.antt =====
-- What main.go and the `SetupWithManager` functions use of flags, feature gates and
-- controller-runtime. None of it is in the repository, so it is a record that the model takes as a
-- parameter. A call that may fail takes the state of the world and returns the next one.
use cluster_api_control_plan.Base.{ℕ, String, Bool, List}
use cluster_api_control_plan.Errors.{Result, ok, err}
use cluster_api_control_plan.Objects.{Foreign, ObjectMeta, ObjectKey, KamajiControlPlane, Secret}
use cluster_api_control_plan.Kube.{Kube}
use cluster_api_control_plan.Controller.Run.{Reconciler}

-- featuregate.FeatureSpec
pub record FeatureSpec : Type 0 where
  pub enabled_by_default : Bool
  pub lock_to_default : Bool
  pub is_alpha : Bool

-- The variables that the flags set.
pub record Flags (ManagerOptions : Type 0) : Type 0 where
  pub dynamic_infrastructure_clusters : List String
  pub metrics_bind_address : String
  pub health_probe_bind_address : String
  pub leader_elect : Bool
  pub max_concurrent_reconciles : ℕ
  pub manager_options : ManagerOptions

-- ctrl.Options, as far as main.go sets them.
pub record Settings (MetricsOptions : Type 0) : Type 0 where
  pub metrics : MetricsOptions
  pub webhook_port : ℕ
  pub caches_unstructured : Bool
  pub health_probe_bind_address : String
  pub leader_election : Bool
  pub leader_election_id : String

-- indexers.Indexer: the field and the values under which an object is found.
pub data Indexer (F : Foreign) : Type 0 where
  kcp_indexer : String → (KamajiControlPlane F → Result (List String)) → Indexer F
  secret_indexer : String → (Secret → Result (List String)) → Indexer F

abbrev pub field_of : {F : Foreign} → Indexer F → String
field_of (kcp_indexer field extract) = field
field_of (secret_indexer field extract) = field

-- A call that may fail, on a state.
abbrev pub Program : Type 0 → Type 0 → Type 0
Program W A = W → Result A × W

module _ {F : Foreign} (K : Kube F) where
  -- What a controller is told of: its own objects that pass a test, objects that its own ones own,
  -- the events of the channel, and KamajiControlPlanes with the requests that each of them makes.
  pub data Source : Type 0 where
    for_objects : String → (ObjectMeta → Bool) → Source
    owned : String → Source
    channel : Source
    watched : (KamajiControlPlane F → K.World → Result (List ObjectKey) × K.World) → Source

  -- A builder, before `Complete`. The first one also filters events of paused objects.
  pub data Controller : Type 0 where
    kamaji_control_plane : Reconciler K → List Source → ℕ → Controller
    external_cluster_reference : List Source → Controller

  pub record Host : Type 1 where
    pub Gate : Type 0
    pub new_feature_gate : Gate
    pub add_features : Gate → List (String × FeatureSpec) → Result Gate
    pub enabled : Gate → String → Bool
    pub ManagerOptions : Type 0
    pub zero_manager_options : ManagerOptions
    pub MetricsOptions : Type 0
    -- FlagSet.Parse of the arguments, into the gate and the variables
    pub parse : List String → Gate → Flags ManagerOptions → Result (Gate × Flags ManagerOptions)
    -- flags.GetManagerOptions
    pub get_manager_options : ManagerOptions → Result MetricsOptions
    pub new_manager : Settings MetricsOptions → Program K.World K.Manager
    -- kubernetes.NewForConfig, and ServerResourcesForGroupVersion for Kamaji's group and version
    pub ClientSet : Type 0
    pub new_for_config : K.Manager → Result ClientSet
    pub tenant_resources : ClientSet → Program K.World (Unit {0})
    -- builder.Complete
    pub complete : K.Manager → Controller → Program K.World (Unit {0})
    pub index_field : K.Manager → Indexer F → Program K.World (Unit {0})
    pub add_healthz_check : K.Manager → String → Program K.World (Unit {0})
    pub add_readyz_check : K.Manager → String → Program K.World (Unit {0})
    -- Manager.Start, which returns when the process is told to stop
    pub start : K.Manager → Program K.World (Unit {0})

module _ {W A B : Type 0} where
  abbrev pub proceed : Result A → (A → Program W B) → Program W B
  proceed (ok a) f w = f a w
  proceed (err e) f w = (err e, w)

  infixl 5 ◌>>=◌ ◌>>◌
  abbrev pub ◌>>=◌ : Program W A → (A → Program W B) → Program W B
  ◌>>=◌ m f w = let (r, w1) = m w in proceed r f w1

  abbrev pub ◌>>◌ : Program W A → Program W B → Program W B
  m >> n = m >>= λ _. n

-- A call that leaves the world alone.
abbrev pub given : {W A : Type 0} → Result A → Program W A
given r w = (r, w)
