-- ===== src/Errors.antt =====
-- Go errors as values: the sentinels of controllers/errors.go,
-- controllers/kamajicontrolplane_controller_externalreference.go and
-- controllers/kamajicontrolplane_controller_tcp.go, the type of
-- controllers/kamajicontrolplane_controller_cluster_patch_errors.go, and the chains that `%w` and
-- `errors.Wrap` build. A nil error is `ok`.
use cluster_api_control_plan.Base.{
  ◌==◌, if◌then◌else◌, String, ◌<>◌, ◌≡◌, refl, Bool, true, false, ◌⊎◌, inl, inr,
}
use cluster_api_control_plan.GoNet.{
  AddrError, missing_port, too_many_colons, missing_bracket, unexpected_open, unexpected_close,
  NumError, err_syntax, err_range,
}

-- metav1.StatusReason of an API error, as far as the program asks for it.
pub data Reason : Type 0 where
  not_found conflict other_reason : Reason

pub data Sentinel : Type 0 where
  err_enqueue_back : Sentinel
  err_unprocessed_control_plane_endpoint : Sentinel
  err_update : Sentinel
  err_client_set_creation : Sentinel
  err_not_enabled : Sentinel
  err_cross_namespace_reference : Sentinel
  err_secret_empty : Sentinel
  err_secret_key_empty : Sentinel
  err_non_initialized_store : Sentinel
  err_tenant_control_plane_not_found : Sentinel
  err_unsupported_certificate_san : Sentinel

-- `prefixed` is `errors.Wrap(e, s)` and `fmt.Errorf("s, %w", e)`, with the separator in the text;
-- `suffixed` is `fmt.Errorf("%w: %s", e, s)`.
pub data Error : Type 0 where
  sentinel : Sentinel → Error
  new_error : String → Error
  api_error : Reason → String → Error
  foreign_error : String → Error
  address_error : AddrError → String → Error
  number_error : NumError → String → Error
  unmanaged_control_plane_address : String → Error
  prefixed : String → Error → Error
  suffixed : Error → String → Error
  -- a nil pointer dereference: a panic, which the caller of `Reconcile` recovers as an error
  nil_pointer : Error
  -- a panic, too
  index_out_of_range : Error

-- A result with an error; `ok` is the nil error.
pub data Result {ℓ} (A : Type ℓ) : Type ℓ where
  ok : A → Result A
  err : Error → Result A

-- errors.Is(e, ErrEnqueueBack): along the chain of wrapped errors
unfoldable pub is_enqueue_back : Error → Bool
is_enqueue_back (sentinel err_enqueue_back) = true
is_enqueue_back (prefixed s e) = is_enqueue_back e
is_enqueue_back (suffixed e s) = is_enqueue_back e
is_enqueue_back _ = false

-- k8serrors.IsNotFound(e)
unfoldable pub is_not_found : Error → Bool
is_not_found (api_error not_found s) = true
is_not_found (prefixed s e) = is_not_found e
is_not_found (suffixed e s) = is_not_found e
is_not_found _ = false

-- k8serrors.IsConflict(e)
unfoldable pub is_conflict : Error → Bool
is_conflict (api_error conflict s) = true
is_conflict (prefixed s e) = is_conflict e
is_conflict (suffixed e s) = is_conflict e
is_conflict _ = false

-- errors.As(e, &UnmanagedControlPlaneAddressError{})
unfoldable pub as_unmanaged : Error → Bool
as_unmanaged (unmanaged_control_plane_address k) = true
as_unmanaged (prefixed s e) = as_unmanaged e
as_unmanaged (suffixed e s) = as_unmanaged e
as_unmanaged _ = false

sentinel_text : Sentinel → String
sentinel_text err_enqueue_back = "enqueue back"
sentinel_text err_unprocessed_control_plane_endpoint =
    "Control Plane Endpoint is not yet available since unprocessed by Kamaji"
sentinel_text err_update = "cannot update KamajiControlPlane resource"
sentinel_text err_client_set_creation = "cannot create Kubernetes Client-set"
sentinel_text err_not_enabled = "external cluster feature gates are not enabled"
sentinel_text err_cross_namespace_reference =
    "the ExternalClusterReference is enforcing kubeconfig in the same Namespace, ExternalClusterReferenceCrossNamespace must be enabled"
sentinel_text err_secret_empty =
    "could not extract kubeconfig for external cluster reference, secret is empty"
sentinel_text err_secret_key_empty =
    "could not extract kubeconfig for external cluster reference, key is empty"
sentinel_text err_non_initialized_store = "remote manager is not yet initialized"
sentinel_text err_tenant_control_plane_not_found =
    "TenantControlPlane custom resource not available in external cluster"
sentinel_text err_unsupported_certificate_san =
    "a certificate SAN must be made of host only with no port"

addr_error_text : AddrError → String
addr_error_text missing_port = "missing port in address"
addr_error_text too_many_colons = "too many colons in address"
addr_error_text missing_bracket = "missing ']' in address"
addr_error_text unexpected_open = "unexpected '[' in address"
addr_error_text unexpected_close = "unexpected ']' in address"

num_error_text : NumError → String
num_error_text err_syntax = "invalid syntax"
num_error_text err_range = "value out of range"

-- err.Error(). The texts of the errors of other packages are theirs; those of net and strconv are
-- written out, but for the escapes in the quoted number.
unfoldable pub error_text : Error → String
unfolding sentinel_text addr_error_text num_error_text
error_text (sentinel x) = sentinel_text x
error_text (new_error s) = s
error_text (api_error r s) = s
error_text (foreign_error s) = s
error_text (address_error e s) =
    if s == "" then addr_error_text e else "address " <> s <> ": " <> addr_error_text e
error_text (number_error e s) = "strconv.ParseInt: parsing \"" <> s <> "\": " <> num_error_text e
error_text (unmanaged_control_plane_address kind) =
    "the " <> kind <> " resource is not directly managing the Control Plane address"
error_text nil_pointer = "invalid memory address or nil pointer dereference"
error_text index_out_of_range = "index out of range"
error_text (prefixed s e) = s <> error_text e
error_text (suffixed e s) = error_text e <> ": " <> s

module _ {ℓ} {A : Type ℓ} where
  pub Result-cases : (r : Result A) → ((a : A) × (r ≡ ok a)) ⊎ ((e : Error) × (r ≡ err e))
  Result-cases (ok a) = inl (a, refl)
  Result-cases (err e) = inr (e, refl)

  -- errors.Wrap, which keeps nil
  abbrev pub wrap : String → Result A → Result A
  wrap s (ok a) = ok a
  wrap s (err e) = err (prefixed s e)

  abbrev pub is_ok : Result A → Bool
  is_ok (ok a) = true
  is_ok (err e) = false
