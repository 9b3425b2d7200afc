-- ===== src/Copies/Objects.antt =====
-- DeepCopyObject, the method of runtime.Object, on the four types that are registered.
use cluster_api_control_plan.Base.{ℕ, ◌≡◌, refl, Option, none, some, ◌⊎◌, inl, inr}
use cluster_api_control_plan.Copies.Memory.{
  Ref, Copyable, pointer, copy_pointer, IsDeep, pointer-IsDeep,
}
use cluster_api_control_plan.Copies.Foreign.{Types, AreDeep}
use cluster_api_control_plan.Copies.Separation.{IsSeparate, AreUsed, copy-IsSeparate}
use cluster_api_control_plan.Copies.ControlPlane.{
  of_control_plane, of_control_plane_list, deep_copy_control_plane, deep_copy_control_plane_list,
  copy_control_plane-IsDeep, copy_control_plane_list-IsDeep,
}
use cluster_api_control_plan.Copies.Template.{
  of_template, of_template_list, deep_copy_template, deep_copy_template_list, copy_template-IsDeep,
  copy_template_list-IsDeep,
}

-- The types that implement runtime.Object.
pub data Kind : Type 0 where
  control_plane control_plane_list template template_list : Kind

module _ (T : Types) where
  abbrev pub of_kind : Kind → Copyable
  of_kind control_plane = of_control_plane T
  of_kind control_plane_list = of_control_plane_list T
  of_kind template = of_template T
  of_kind template_list = of_template_list T

  -- A pointer to an object, and the interface value: none is the nil interface.
  abbrev pub Pointer : Kind → Type 0
  Pointer k = Option (Ref (of_kind k).Carrier)

  abbrev pub Object : Type 0
  Object = Option ((k : Kind) × Ref (of_kind k).Carrier)

  -- if c := in.DeepCopy(); c != nil { return c }; return nil
  abbrev pub returned : (k : Kind) → Pointer k → Object
  returned k none = none
  returned k (some c) = some (k, c)

  unfoldable pub deep_copy_object_control_plane : Pointer control_plane → ℕ → Object × ℕ
  deep_copy_object_control_plane x n =
      let (c, n1) = deep_copy_control_plane T x n in (returned control_plane c, n1)

  unfoldable pub deep_copy_object_control_plane_list : Pointer control_plane_list → ℕ → Object × ℕ
  deep_copy_object_control_plane_list x n =
      let (c, n1) = deep_copy_control_plane_list T x n in (returned control_plane_list c, n1)

  unfoldable pub deep_copy_object_template : Pointer template → ℕ → Object × ℕ
  deep_copy_object_template x n =
      let (c, n1) = deep_copy_template T x n in (returned template c, n1)

  unfoldable pub deep_copy_object_template_list : Pointer template_list → ℕ → Object × ℕ
  deep_copy_object_template_list x n =
      let (c, n1) = deep_copy_template_list T x n in (returned template_list c, n1)

  -- The call of the method.
  unfoldable pub deep_copy_object : (k : Kind) → Pointer k → ℕ → Object × ℕ
  unfolding deep_copy_object_control_plane deep_copy_object_control_plane_list
      deep_copy_object_template deep_copy_object_template_list
  deep_copy_object control_plane = deep_copy_object_control_plane
  deep_copy_object control_plane_list = deep_copy_object_control_plane_list
  deep_copy_object template = deep_copy_object_template
  deep_copy_object template_list = deep_copy_object_template_list

  kinds-IsDeep : AreDeep T → (k : Kind) → IsDeep (of_kind k)
  kinds-IsDeep L control_plane = copy_control_plane-IsDeep T L
  kinds-IsDeep L control_plane_list = copy_control_plane_list-IsDeep T L
  kinds-IsDeep L template = copy_template-IsDeep T L
  kinds-IsDeep L template_list = copy_template_list-IsDeep T L

  deep_copy_object-pointer :
      (k : Kind) (x : Pointer k) (n : ℕ)
      → (deep_copy_object k x n).0 ≡ returned k (copy_pointer (of_kind k) x n).0
  unfolding deep_copy_object
  deep_copy_object-pointer control_plane x n = refl
  deep_copy_object-pointer control_plane_list x n = refl
  deep_copy_object-pointer template x n = refl
  deep_copy_object-pointer template_list x n = refl

  -- A deep copy of a KamajiControlPlane, a KamajiControlPlaneTemplate or a list of these, at a time
  -- when all its references are in use: nil is copied to the nil interface; any other object to one
  -- of its type with the same contents, in which no reference is one of the original and none stands
  -- twice. This is so if the copies of the other projects are deep, and the types that are assigned
  -- hold no reference.
  pub deep_copy_object-IsSeparate :
      AreDeep T
      → (k : Kind) (x : Pointer k) (n : ℕ) → AreUsed n ((pointer (of_kind k)).addresses x)
      → ((x ≡ none) × ((deep_copy_object k x n).0 ≡ none))
        ⊎ ((c : Ref (of_kind k).Carrier) × ((deep_copy_object k x n).0 ≡ some (k, c))
            × IsSeparate (pointer (of_kind k)) x (some c))
  unfolding copy_pointer
  deep_copy_object-IsSeparate L k none n u = inl (refl, deep_copy_object-pointer k none n)
  deep_copy_object-IsSeparate L k (some r) n u = inr (
    _,
    deep_copy_object-pointer k (some r) n,
    copy-IsSeparate (pointer (of_kind k)) (pointer-IsDeep (kinds-IsDeep L k)) (some r) n u,
  )
