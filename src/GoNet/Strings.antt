-- ===== src/GoNet/Strings.antt =====
-- `strings.HasPrefix`, `strings.TrimPrefix`, `strings.Split`, `strings.IndexByte` and the like.
use Prim.Native.Char.{Char, code}
use Prim.Native.String.{String}
use cluster_api_control_plan.Base.{
  ℕ, Bool, true, false, ◌&&◌, ◌||◌, Option, none, some, List, nat_eq, if◌then◌else◌,
}

-- The code point of a character is this one.
abbrev pub is_char : ℕ → Char → Bool
is_char n c = nat_eq (code c) n

-- strings.HasPrefix(s, prefix)
unfoldable pub has_prefix : String → String → Bool
has_prefix s String.[] = true
has_prefix String.[] (String.◌∷◌ p ps) = false
has_prefix (String.◌∷◌ c s) (String.◌∷◌ p ps) = is_char (code p) c && has_prefix s ps

-- s[len(prefix):] for an s that begins with the prefix
unfoldable pub drop_prefix : String → String → String
drop_prefix s String.[] = s
drop_prefix String.[] (String.◌∷◌ p ps) = String.[]
drop_prefix (String.◌∷◌ c s) (String.◌∷◌ p ps) = drop_prefix s ps

-- strings.TrimPrefix(s, prefix)
unfoldable pub trim_prefix : String → String → String
unfolding has_prefix drop_prefix
trim_prefix s prefix = if has_prefix s prefix then drop_prefix s prefix else s

-- strings.IndexByte(s, c) >= 0
unfoldable pub has_char : ℕ → String → Bool
has_char n String.[] = false
has_char n (String.◌∷◌ c s) = is_char n c || has_char n s

-- The parts before and behind the first place of a character.
unfoldable pub split_first : ℕ → String → Option (String × String)
split_first n String.[] = none
split_first n (String.◌∷◌ c s) =
    if is_char n c
    then some (String.[], s)
    else elim (split_first n s) [ none ↦ none | some (a, b) ↦ some (String.◌∷◌ c a, b) ]

-- The parts before and behind the last place of a character.
unfoldable pub split_last : ℕ → String → Option (String × String)
split_last n String.[] = none
split_last n (String.◌∷◌ c s) = elim (split_last n s) [
  | some (a, b) ↦ some (String.◌∷◌ c a, b)
  | none ↦ if is_char n c then some (String.[], s) else none
]

-- A character put in front of the first part.
abbrev pub onto_first : Char → List String → List String
onto_first c List.[] = List.◌∷◌ (String.◌∷◌ c String.[]) List.[]
onto_first c (List.◌∷◌ part parts) = List.◌∷◌ (String.◌∷◌ c part) parts

-- strings.Split(s, sep) for a separator of one byte
unfoldable pub split : ℕ → String → List String
split n String.[] = List.◌∷◌ String.[] List.[]
split n (String.◌∷◌ c s) =
    let rest = split n s in if is_char n c then List.◌∷◌ String.[] rest else onto_first c rest
