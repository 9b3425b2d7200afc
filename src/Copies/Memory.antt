-- ===== src/Copies/Memory.antt =====
-- References, types that can be copied, and the ways of the generated code to copy a field.
use mathlib.Core.Path.{subst⁻¹}
use cluster_api_control_plan.Base.{
  ℕ, suc, ◌≤◌, String, ◌≡◌, refl, ap, arith, Option, none, some, List, [], ◌∷◌, ◌++◌, Entries,
}

-- What a pointer, a slice or a map refers to, at its address.
pub record Ref (A : Type 0) : Type 0 where
  pub address : ℕ
  pub target : A

-- A type with its values' contents, which know no addresses; the addresses in a value, in the order in
-- which a copy makes them; and DeepCopyInto, or an assignment. An address that is free, and all above
-- it, are free for the copy.
pub record Copyable : Type 1 where
  pub Carrier : Type 0
  pub Contents : Type 0
  pub contents : Carrier → Contents
  pub addresses : Carrier → List ℕ
  pub copy_into : Carrier → ℕ → Carrier × ℕ

-- *out = *in, for a type with these references.
abbrev pub assigned : (A : Type 0) → (A → List ℕ) → Copyable
assigned A references = record {
  Carrier = A;
  Contents = A;
  contents = λ x. x;
  addresses = references;
  copy_into = λ x n. (x, n);
}

abbrev pub plain : Type 0 → Copyable
plain A = assigned A (λ x. [])

module _ (C : Copyable) where
  abbrev pub pointer_contents : Option (Ref C.Carrier) → Option C.Contents
  pointer_contents none = none
  pointer_contents (some r) = some (C.contents r.target)

  abbrev pub pointer_addresses : Option (Ref C.Carrier) → List ℕ
  pointer_addresses none = []
  pointer_addresses (some r) = r.address ∷ C.addresses r.target

  -- if in != nil { *out = new(T); (*in).DeepCopyInto(*out) }
  unfoldable pub copy_pointer : Option (Ref C.Carrier) → ℕ → Option (Ref C.Carrier) × ℕ
  copy_pointer none n = (none, n)
  copy_pointer (some r) n =
      let (x, n1) = C.copy_into r.target (suc n) in (some (record { address = n; target = x }), n1)

  abbrev pub pointer : Copyable
  pointer = record {
    Carrier = Option (Ref C.Carrier);
    Contents = Option C.Contents;
    contents = pointer_contents;
    addresses = pointer_addresses;
    copy_into = copy_pointer;
  }

  abbrev pub elements_contents : List C.Carrier → List C.Contents
  elements_contents [] = []
  elements_contents (x ∷ xs) = C.contents x ∷ elements_contents xs

  abbrev pub elements_addresses : List C.Carrier → List ℕ
  elements_addresses [] = []
  elements_addresses (x ∷ xs) = C.addresses x ++ elements_addresses xs

  -- for i := range *in { (*in)[i].DeepCopyInto(&(*out)[i]) }, or copy(*out, *in)
  unfoldable pub copy_elements : List C.Carrier → ℕ → List C.Carrier × ℕ
  copy_elements [] n = ([], n)
  copy_elements (x ∷ xs) n =
      let (y, n1) = C.copy_into x n in let (ys, n2) = copy_elements xs n1 in (y ∷ ys, n2)

  abbrev pub elements : Copyable
  elements = record {
    Carrier = List C.Carrier;
    Contents = List C.Contents;
    contents = elements_contents;
    addresses = elements_addresses;
    copy_into = copy_elements;
  }

-- if in != nil { *out = make([]T, len(*in)); … }
abbrev pub slice : Copyable → Copyable
slice C = pointer (elements C)

-- if in != nil { *out = make(map[string]string, len(*in)); for key, val := range *in { … } }
abbrev pub string_map : Copyable
string_map = pointer (plain (Entries String))

-- The addresses go up from n, and stay below m: they are new, and no two are the same.
abbrev pub Span : ℕ → ℕ → List ℕ → Type 0
Span n m [] = n ≤ m
Span n m (a ∷ xs) = (n ≤ a) × Span (suc a) m xs

Span-append : (n m k : ℕ) (xs ys : List ℕ) → Span n m xs → Span m k ys → Span n k (xs ++ ys)
Span-append n m k [] [] s t = omega (arith, s, t)
Span-append n m k [] (b ∷ ys) s (below, t) = (omega (arith, s, below), t)
Span-append n m k (a ∷ xs) ys (below, s) t = (below, Span-append (suc a) m k xs ys s t)

-- Addresses that are new, and go up.
pub record IsNew (n m : ℕ) (xs : List ℕ) : Type 0 where
  pub span : Span n m xs

infixl 5 ◌&◌
pub ◌&◌ : {n m k : ℕ} {xs ys : List ℕ} → IsNew n m xs → IsNew m k ys → IsNew n k (xs ++ ys)
◌&◌ {n} {m} {k} {xs} {ys} s t = record { span = Span-append n m k xs ys s.span t.span }

pub nothing-IsNew : (n : ℕ) → IsNew n n []
nothing-IsNew n = record { span = omega arith }

-- A copy has the same contents, and only addresses of its own.
pub record IsCopy (C : Copyable) (x : C.Carrier) (n : ℕ) : Type 0 where
  pub same : C.contents (C.copy_into x n).0 ≡ C.contents x
  pub addresses : IsNew n (C.copy_into x n).1 (C.addresses (C.copy_into x n).0)

pub record IsDeep (C : Copyable) : Type 0 where
  pub is_copy : (x : C.Carrier) (n : ℕ) → IsCopy C x n

pub plain-IsDeep : (A : Type 0) → IsDeep (plain A)
plain-IsDeep A = record { is_copy = λ x n. record { same = refl; addresses = nothing-IsNew n } }

-- An assignment is a deep copy of a type whose values hold no reference.
pub assigned-IsDeep :
    (A : Type 0) (references : A → List ℕ)
    → ((x : A) → references x ≡ [])
    → IsDeep (assigned A references)
assigned-IsDeep A references flat = record {
  is_copy =
      λ x n. record { same = refl; addresses = subst⁻¹ (IsNew n n) (flat x) (nothing-IsNew n) };
}

pointer-IsCopy :
    {C : Copyable} → IsDeep C → (x : Option (Ref C.Carrier)) (n : ℕ) → IsCopy (pointer C) x n
unfolding copy_pointer
pointer-IsCopy deep none n = record { same = refl; addresses = nothing-IsNew n }
pointer-IsCopy deep (some r) n =
    let i = deep.is_copy r.target (suc n) in
    record { same = ap some i.same; addresses = record { span = (omega arith, i.addresses.span) } }

pub pointer-IsDeep : {C : Copyable} → IsDeep C → IsDeep (pointer C)
pointer-IsDeep deep = record { is_copy = pointer-IsCopy deep }

elements-IsCopy : {C : Copyable} → IsDeep C → (x : List C.Carrier) (n : ℕ) → IsCopy (elements C) x n
unfolding copy_elements
elements-IsCopy deep [] n = record { same = refl; addresses = nothing-IsNew n }
elements-IsCopy {C} deep (x ∷ xs) n =
    let i = deep.is_copy x n in
    let more = elements-IsCopy deep xs (C.copy_into x n).1 in
    record { same = λ j. i.same j ∷ more.same j; addresses = i.addresses & more.addresses }

pub slice-IsDeep : {C : Copyable} → IsDeep C → IsDeep (slice C)
slice-IsDeep deep = pointer-IsDeep (record { is_copy = elements-IsCopy deep })

pub string_map-IsDeep : IsDeep string_map
string_map-IsDeep = pointer-IsDeep (plain-IsDeep (Entries String))

-- The least free address after the copy.
abbrev pub after : {C : Copyable} {x : C.Carrier} {n : ℕ} → IsCopy C x n → ℕ
after {C} {x} {n} i = (C.copy_into x n).1
