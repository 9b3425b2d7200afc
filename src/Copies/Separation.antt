-- ===== src/Copies/Separation.antt =====
-- A copy shares nothing with the original.
use cluster_api_control_plan.Base.{
  ℕ, suc, ◌<◌, ◌≡◌, refl, arith, Bool, true, false, ◌||◌, List, [], ◌∷◌, nat_eq, Bool-cases, inl,
  inr,
}
use cluster_api_control_plan.Copies.Memory.{Copyable, Span, IsDeep}

abbrev pub occurs : ℕ → List ℕ → Bool
occurs a [] = false
occurs a (x ∷ xs) = nat_eq a x || occurs a xs

abbrev pub AreDistinct : List ℕ → Type 0
AreDistinct [] = Unit
AreDistinct (x ∷ xs) = (occurs x xs ≡ false) × AreDistinct xs

-- The addresses are in use when n is the least free one.
abbrev pub AreUsed : ℕ → List ℕ → Type 0
AreUsed n [] = Unit
AreUsed n (x ∷ xs) = (x < n) × AreUsed n xs

Span-not_occurs : (n m a : ℕ) (xs : List ℕ) → Span n m xs → a < n → occurs a xs ≡ false
Span-not_occurs n m a [] s h = refl
Span-not_occurs n m a (x ∷ xs) (below, s) h =
    ground (arith, Span-not_occurs (suc x) m a xs s, below, h)

Span-AreDistinct : (n m : ℕ) (xs : List ℕ) → Span n m xs → AreDistinct xs
Span-AreDistinct n m [] s = tt
Span-AreDistinct n m (x ∷ xs) (below, s) =
    (Span-not_occurs (suc x) m x xs s (omega arith), Span-AreDistinct (suc x) m xs s)

used-lt : (n a : ℕ) (xs : List ℕ) → AreUsed n xs → occurs a xs ≡ true → a < n
used-lt n a [] u h = ground arith
used-lt n a (x ∷ xs) (below, u) h = elim (Bool-cases (nat_eq a x)) [
  | inl y ↦ ground (arith, below, y)
  | inr e ↦ used-lt n a xs u (ground (arith, h, e))
]

module _ (C : Copyable) where
  -- Two values with the same contents, where the second has no reference twice, and none of the
  -- first.
  pub record IsSeparate (x y : C.Carrier) : Type 0 where
    pub same : C.contents y ≡ C.contents x
    pub apart : (a : ℕ) → occurs a (C.addresses x) ≡ true → occurs a (C.addresses y) ≡ false
    pub distinct : AreDistinct (C.addresses y)

  pub copy-IsSeparate :
      IsDeep C
      → (x : C.Carrier) (n : ℕ) → AreUsed n (C.addresses x)
      → IsSeparate x (C.copy_into x n).0
  copy-IsSeparate deep x n u =
      let i = deep.is_copy x n in
      let m = (C.copy_into x n).1 in
      record {
        same = i.same;
        apart = λ a h. Span-not_occurs n m a _ i.addresses.span (used-lt n a (C.addresses x) u h);
        distinct = Span-AreDistinct n m _ i.addresses.span;
      }
