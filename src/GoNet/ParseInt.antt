-- ===== src/GoNet/ParseInt.antt =====
-- `strconv.ParseInt(s, 10, bitSize)`.
use Prim.Native.Char.{code}
use Prim.Native.String.{String}
use cluster_api_control_plan.Base.{
  ℕ, ◌+◌, ◌-◌, ◌*◌, ◌^◌, Bool, true, false, ◌&&◌, ltb, leb, if◌then◌else◌,
}
use cluster_api_control_plan.Base.Int.{ℤ, pos, neg}
use cluster_api_control_plan.GoNet.Strings.{is_char}

pub data NumError : Type 0 where
  err_syntax err_range : NumError

pub data Parsed {ℓ} (A : Type ℓ) : Type ℓ where
  parsed : A → Parsed A
  num_error : NumError → Parsed A

unfoldable pub is_digit : ℕ → Bool
is_digit c = leb b'0' c && leb c b'9'

-- The loop of `strconv.ParseUint` over the digits: a number beyond `max` ends it at once.
unfoldable pub parse_digits : ℕ → ℕ → String → Parsed ℕ
unfolding is_digit
parse_digits max n String.[] = parsed n
parse_digits max n (String.◌∷◌ c s) =
    let n1 = n * 10 + (code c - b'0') in
    let rest = parse_digits max n1 s in
    if is_digit (code c)
    then if ltb max n1 then num_error err_range else rest
    else num_error err_syntax

-- `strconv.ParseUint(s, 10, bitSize)`
unfoldable pub parse_uint : ℕ → String → Parsed ℕ
unfolding parse_digits
parse_uint bits String.[] = num_error err_syntax
parse_uint bits (String.◌∷◌ c s) = parse_digits (2 ^ bits - 1) 0 (String.◌∷◌ c s)

-- The tests of the cutoff `1 << (bitSize - 1)`.
unfoldable pub sign_range : Bool → ℕ → ℕ → Parsed ℤ
sign_range negative cutoff un =
    if negative
    then if ltb cutoff un then num_error err_range else parsed (neg un)
    else if leb cutoff un
    then num_error err_range
    else parsed (pos un)

unfoldable pub signed : Bool → ℕ → Parsed ℕ → Parsed ℤ
unfolding sign_range
signed negative bits (num_error e) = num_error e
signed negative bits (parsed un) = sign_range negative (2 ^ (bits - 1)) un

unfoldable pub parse_int : ℕ → String → Parsed ℤ
unfolding signed parse_uint
parse_int bits String.[] = num_error err_syntax
parse_int bits (String.◌∷◌ c s) =
    if is_char b'+' c
    then signed false bits (parse_uint bits s)
    else if is_char b'-' c
    then signed true bits (parse_uint bits s)
    else signed false bits (parse_uint bits (String.◌∷◌ c s))
