-- ===== src/GoNet/Numbers.antt =====
-- What `strconv.ParseInt` makes of a text of decimal digits.
use Prim.Native.Char.{Char, code}
use Prim.Native.String.{String}
use native.Mathlib.Nat.{pow-suc}
use cluster_api_control_plan.Base.{
  ℕ, suc, ◌+◌, ◌-◌, ◌*◌, ◌^◌, ◌≤◌, ◌≡◌, refl, Option, none, some, Bool, true, false, arith, ltb,
  if◌then◌else◌,
}
use cluster_api_control_plan.Base.Int.{pos}
use cluster_api_control_plan.GoNet.Strings.{is_char}
use cluster_api_control_plan.GoNet.ParseInt.{
  sign_range, parsed, num_error, err_range, is_digit, parse_digits, parse_uint, signed, parse_int,
}

-- The number that a text of decimal digits stands for, behind the digits of `n`; `none` if some
-- character is no digit.
unfoldable pub decimal_from : ℕ → String → Option ℕ
unfolding is_digit
decimal_from n String.[] = some n
decimal_from n (String.◌∷◌ c s) =
    if is_digit (code c) then decimal_from (n * 10 + (code c - b'0')) s else none

-- The number that a text stands for, if it is one or more decimal digits.
unfoldable pub decimal : String → Option ℕ
unfolding decimal_from
decimal String.[] = none
decimal (String.◌∷◌ c s) = decimal_from 0 (String.◌∷◌ c s)

decimal_from_le : (n : ℕ) (s : String) (v : ℕ) → decimal_from n s ≡ some v → n ≤ v
unfolding decimal_from
decimal_from_le n String.[] v h = ground arith
decimal_from_le n (String.◌∷◌ c s) v h =
    ground (arith, decimal_from_le (n * 10 + (code c - b'0')) s v)

parse_digits-decimal :
    (max n : ℕ) (s : String) (v : ℕ)
    → n ≤ max
    → decimal_from n s ≡ some v
    → parse_digits max n s ≡ (if ltb max v then num_error err_range else parsed v)
unfolding decimal_from parse_digits
parse_digits-decimal max n String.[] v fits h = ground arith
parse_digits-decimal max n (String.◌∷◌ c s) v fits h = ground (
  arith,
  parse_digits-decimal max (n * 10 + (code c - b'0')) s v,
  decimal_from_le (n * 10 + (code c - b'0')) s v,
)

pub parse_uint-decimal :
    (bits : ℕ) (s : String) (v : ℕ)
    → decimal s ≡ some v
    → parse_uint bits s ≡ (if ltb (2 ^ bits - 1) v then num_error err_range else parsed v)
unfolding decimal parse_uint
parse_uint-decimal bits String.[] v h = cc
parse_uint-decimal bits (String.◌∷◌ c s) v h =
    parse_digits-decimal (2 ^ bits - 1) 0 (String.◌∷◌ c s) v (omega arith) h

signed-if :
    (b : Bool) (bits v : ℕ)
    → signed false bits (if b then num_error err_range else parsed v)
      ≡ (if b then num_error err_range else sign_range false (2 ^ (bits - 1)) v)
unfolding signed
signed-if true bits v = refl
signed-if false bits v = refl

signed-decimal :
    (w : ℕ) (s : String) (v : ℕ)
    → decimal s ≡ some v
    → signed false (suc w) (parse_uint (suc w) s)
      ≡ (if ltb v (2 ^ w) then parsed (pos v) else num_error err_range)
unfolding sign_range
signed-decimal w s v h =
    let e : suc w - 1 ≡ w = omega arith in
    rw (parse_uint-decimal (suc w) s v h, signed-if, e) (ground (arith, pow-suc 2 w))

first_digit :
    (c : Char) (s : String) (v : ℕ) → decimal (String.◌∷◌ c s) ≡ some v → is_digit (code c) ≡ true
unfolding decimal
first_digit c s v h = ground arith

not_a_sign :
    (c : Char) → is_digit (code c) ≡ true → (is_char b'+' c ≡ false) × (is_char b'-' c ≡ false)
unfolding is_digit
not_a_sign c h = ground arith

-- A text of decimal digits is read as its value if that is less than half of the range, and
-- refused as out of range if not.
pub parse_int-decimal :
    (w : ℕ) (s : String) (v : ℕ)
    → decimal s ≡ some v
    → parse_int (suc w) s ≡ (if ltb v (2 ^ w) then parsed (pos v) else num_error err_range)
parse_int-decimal w String.[] v h = unfold decimal in cc
parse_int-decimal w (String.◌∷◌ c s) v h =
    let d = not_a_sign c (first_digit c s v h) in
    let e = signed-decimal w (String.◌∷◌ c s) v h in unfold parse_int in rw (d.0, d.1) e
