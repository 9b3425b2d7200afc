-- ===== src/Objects/Template.antt =====
-- The types of api/v1alpha2/kamajicontrolplanetemplate_types.go, from which Cluster API makes
-- KamajiControlPlanes. The metadata of a resource is a type of Cluster API.
use cluster_api_control_plan.Base.{List}
use cluster_api_control_plan.Objects.ForeignTypes.{Foreign}
use cluster_api_control_plan.Objects.Meta.{ObjectMeta}
use cluster_api_control_plan.Objects.ControlPlane.{KamajiControlPlaneFields, KamajiControlPlane}

module _ (F : Foreign) (Metadata : Type 0) where
  pub record KamajiControlPlaneTemplateResource : Type 0 where
    pub meta : Metadata
    pub spec : KamajiControlPlaneFields F

  pub record KamajiControlPlaneTemplateSpec : Type 0 where
    pub template : KamajiControlPlaneTemplateResource

  pub record KamajiControlPlaneTemplate : Type 0 where
    pub meta : ObjectMeta
    pub spec : KamajiControlPlaneTemplateSpec

  pub record KamajiControlPlaneTemplateList : Type 0 where
    pub items : List KamajiControlPlaneTemplate

-- The list type of api/v1alpha2/kamajicontrolplane_types.go.
pub record KamajiControlPlaneList (F : Foreign) : Type 0 where
  pub items : List (KamajiControlPlane F)
