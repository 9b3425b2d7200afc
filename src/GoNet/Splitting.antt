-- ===== src/GoNet/Splitting.antt =====
-- Laws of `strings.HasPrefix`, `strings.TrimPrefix` and `strings.Split`.
use Prim.Native.Char.{Char}
use Prim.Native.String.{String}
use text.Mathlib.TextLemmas.{nil-append, cons-append}
use text.Mathlib.TextEquality.{Char-path}
use mathlib.Core.Path.{ap₂}
use cluster_api_control_plan.Base.{ℕ, ◌≡◌, refl, true, false, ◌<>◌, arith, [], ◌∷◌}
use cluster_api_control_plan.GoNet.Strings.{
  is_char, has_prefix, drop_prefix, trim_prefix, has_char, split,
}

pub has_prefix-append : (p s : String) → has_prefix (p <> s) p ≡ true
unfolding has_prefix
has_prefix-append String.[] s = refl
has_prefix-append (String.◌∷◌ c p) s = rw cons-append (ground (arith, has_prefix-append p s))

pub drop_prefix-append : (p s : String) → drop_prefix (p <> s) p ≡ s
unfolding drop_prefix
drop_prefix-append String.[] s = nil-append s
drop_prefix-append (String.◌∷◌ c p) s = rw cons-append (drop_prefix-append p s)

-- What a text with a prefix loses by `TrimPrefix` is the prefix.
pub trim_prefix-append : (p s : String) → trim_prefix (p <> s) p ≡ s
unfolding trim_prefix
trim_prefix-append p s = rw (trim_prefix, has_prefix-append, drop_prefix-append)

pub append-drop_prefix : (p s : String) → has_prefix s p ≡ true → p <> drop_prefix s p ≡ s
unfolding has_prefix drop_prefix
append-drop_prefix String.[] s h = nil-append s
append-drop_prefix (String.◌∷◌ p ps) String.[] h = cc
append-drop_prefix (String.◌∷◌ p ps) (String.◌∷◌ c s) h =
    rw cons-append
      (ap₂ String.◌∷◌ (Char-path p c (ground arith)) (append-drop_prefix ps s (ground arith)))

-- A text that has the prefix is the prefix and what `TrimPrefix` leaves.
pub append-trim_prefix : (p s : String) → has_prefix s p ≡ true → p <> trim_prefix s p ≡ s
unfolding trim_prefix
append-trim_prefix p s h = rw (trim_prefix, h) (append-drop_prefix p s h)

-- Splitting goes on behind the first separator.
pub split-append :
    (n : ℕ) (c : Char) (a b : String)
    → is_char n c ≡ true
    → has_char n a ≡ false
    → split n (a <> String.◌∷◌ c b) ≡ a ∷ split n b
unfolding split has_char
split-append n c String.[] b sep clean = rw nil-append (ground arith)
split-append n c (String.◌∷◌ x a) b sep clean =
    rw cons-append (ground (arith, split-append n c a b))

-- A text with no separator is its only part.
pub split-single : (n : ℕ) (a : String) → has_char n a ≡ false → split n a ≡ a ∷ []
unfolding split has_char
split-single n String.[] clean = refl
split-single n (String.◌∷◌ x a) clean = ground (arith, split-single n a)
