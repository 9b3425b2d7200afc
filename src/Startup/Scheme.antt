-- ===== src/Startup/Scheme.antt =====
-- Registration with the scheme: api/v1alpha2/groupversion_info.go, the `init` functions of
-- api/v1alpha2, and that of main.go. The scheme, its builder and the other projects' AddToScheme are
-- parameters.
use cluster_api_control_plan.Base.{
  String, ◌≡◌, Bool, true, List, [], ◌∷◌, contains, arith, inl, inr, Bool-cases,
}
use cluster_api_control_plan.Errors.{Result, ok, err}

-- schema.GroupVersion
pub record GroupVersion : Type 0 where
  pub group : String
  pub version : String

abbrev pub group_version : GroupVersion
group_version = record { group = "controlplane.cluster.x-k8s.io"; version = "v1alpha2" }

abbrev pub proceed : {A B : Type 0} → Result A → (A → Result B) → Result B
proceed (ok a) f = f a
proceed (err e) f = err e

-- runtime.Scheme and runtime.SchemeBuilder; kinds are those of the objects that are passed.
pub record Schemes : Type 1 where
  pub Scheme : Type 0
  pub new_scheme : Scheme
  pub add_to_group_version : GroupVersion → Scheme → Scheme
  pub add_known_types : GroupVersion → List String → Scheme → Scheme
  pub recognizes : Scheme → GroupVersion → String → Bool
  pub Builder : Type 0
  pub new_scheme_builder : (Scheme → Result Scheme) → Builder
  pub register : Builder → (Scheme → Result Scheme) → Builder
  pub add_to_scheme : Builder → Scheme → Result Scheme
  -- AddToScheme of client-go, Kamaji and Cluster API
  pub add_client_go : Scheme → Result Scheme
  pub add_kamaji : Scheme → Result Scheme
  pub add_cluster_api : Scheme → Result Scheme

module _ (C : Schemes) where
  -- The variable SchemeBuilder, before the `init` functions run.
  unfoldable pub scheme_builder : C.Builder
  scheme_builder = C.new_scheme_builder (λ s. ok (C.add_to_group_version group_version s))

  -- The two `init` functions, which run in the order of their files.
  unfoldable pub register_control_plane : C.Builder → C.Builder
  register_control_plane builder = C.register builder (λ s.
      ok (C.add_known_types group_version ("KamajiControlPlane" ∷ "KamajiControlPlaneList" ∷ []) s))

  unfoldable pub register_template : C.Builder → C.Builder
  register_template builder = C.register builder (λ s. ok (
      C.add_known_types group_version
        ("KamajiControlPlaneTemplate" ∷ "KamajiControlPlaneTemplateList" ∷ []) s))

  -- AddToScheme, a method of the variable's address: it sees what was registered since.
  unfoldable pub add_control_plane : C.Scheme → Result C.Scheme
  unfolding scheme_builder register_control_plane register_template
  add_control_plane = C.add_to_scheme (register_template (register_control_plane scheme_builder))

  -- `init` of main.go, which ends the process on an error.
  unfoldable pub init_scheme : Result C.Scheme
  init_scheme =
      proceed (C.add_client_go C.new_scheme)
        (λ s1. proceed (C.add_kamaji s1) (λ s2. proceed (C.add_cluster_api s2) add_control_plane))

  -- A builder runs its functions in the order of their registration; what is added is known, and
  -- stays known.
  pub record IsLawfulScheme : Type 0 where
    pub runs_first :
        (f : C.Scheme → Result C.Scheme) (s : C.Scheme)
        → C.add_to_scheme (C.new_scheme_builder f) s ≡ f s
    pub runs_next :
        (b : C.Builder) (f : C.Scheme → Result C.Scheme) (s : C.Scheme)
        → C.add_to_scheme (C.register b f) s ≡ proceed (C.add_to_scheme b s) f
    pub knows :
        (gv : GroupVersion) (kinds : List String) (s : C.Scheme) (kind : String)
        → contains kind kinds ≡ true
        → C.recognizes (C.add_known_types gv kinds s) gv kind ≡ true
    pub keeps :
        (gv gv' : GroupVersion) (kinds : List String) (s : C.Scheme) (kind : String)
        → C.recognizes s gv' kind ≡ true
        → C.recognizes (C.add_known_types gv kinds s) gv' kind ≡ true

  -- If the other projects' registrations succeed, so does the program's, and the scheme that the
  -- manager is made with knows the objects of the program and their lists.
  init_scheme-recognizes :
      IsLawfulScheme
      → {s1 s2 s3 : C.Scheme} (kind : String) → C.add_client_go C.new_scheme ≡ ok s1
      → C.add_kamaji s1 ≡ ok s2
      → C.add_cluster_api s2 ≡ ok s3
      → contains kind (
          "KamajiControlPlane" ∷ "KamajiControlPlaneList" ∷ "KamajiControlPlaneTemplate"
          ∷ "KamajiControlPlaneTemplateList" ∷ [])
        ≡ true
      → (s : C.Scheme) × (init_scheme ≡ ok s) × (C.recognizes s group_version kind ≡ true)
  unfolding init_scheme add_control_plane contains
  init_scheme-recognizes L {s1} {s2} {s3} kind e1 e2 e3 known =
      let grouped = C.add_to_group_version group_version s3 in
      let own = "KamajiControlPlane" ∷ "KamajiControlPlaneList" ∷ [] in
      let templates = "KamajiControlPlaneTemplate" ∷ "KamajiControlPlaneTemplateList" ∷ [] in
      let first = C.add_known_types group_version own grouped in
      let grouping : C.Scheme → Result C.Scheme =
        λ t. ok (C.add_to_group_version group_version t) in
      let naming : List String → C.Scheme → Result C.Scheme =
        λ kinds t. ok (C.add_known_types group_version kinds t) in
      let begun = C.new_scheme_builder grouping in
      (
        C.add_known_types group_version templates first,
        ground (
          arith,
          e1,
          e2,
          e3,
          L.runs_next (C.register begun (naming own)) (naming templates) s3,
          L.runs_next begun (naming own) s3,
          L.runs_first grouping s3,
        ),
        elim (Bool-cases (contains kind own)) [
          | inl y ↦
              L.keeps group_version group_version templates first kind
                (L.knows group_version own grouped kind y)
          | inr n ↦ L.knows group_version templates first kind (ground (arith, known, n))
        ],
      )
