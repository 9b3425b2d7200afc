-- ===== src/Objects/Status.antt =====
-- The methods of `KamajiControlPlaneStatus` in api/v1alpha2/kamajicontrolplane_types.go.
use cluster_api_control_plan.Base.{◌≡◌, refl, Bool, false, Option, none, some}
use cluster_api_control_plan.Objects.ControlPlane.{
  KamajiControlPlaneInitializationStatus, KamajiControlPlaneStatus,
}

-- A nil receiver is allowed.
unfoldable pub get_control_plane_initialized :
    Option KamajiControlPlaneInitializationStatus → Option Bool
get_control_plane_initialized none = none
get_control_plane_initialized (some s) = s.control_plane_initialized

initialized_or_false : Option KamajiControlPlaneInitializationStatus → Bool
initialized_or_false none = false
initialized_or_false (some s) = elim s.control_plane_initialized [ none ↦ false | some b ↦ b ]

unfoldable pub is_control_plane_initialized : KamajiControlPlaneStatus → Bool
unfolding initialized_or_false
is_control_plane_initialized s = initialized_or_false s.initialization

initialization_or_new :
    Option KamajiControlPlaneInitializationStatus → KamajiControlPlaneInitializationStatus
initialization_or_new none = record { control_plane_initialized = none }
initialization_or_new (some i) = i

unfoldable pub set_control_plane_initialized :
    Bool → KamajiControlPlaneStatus → KamajiControlPlaneStatus
unfolding initialization_or_new
set_control_plane_initialized value s = record s {
  initialization =
      some (record (initialization_or_new s.initialization) {
        control_plane_initialized = some value;
      });
}

pub is-set_control_plane_initialized :
    (b : Bool) (s : KamajiControlPlaneStatus)
    → is_control_plane_initialized (set_control_plane_initialized b s) ≡ b
unfolding is_control_plane_initialized set_control_plane_initialized
is-set_control_plane_initialized b s = refl
