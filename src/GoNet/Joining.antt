-- ===== src/GoNet/Joining.antt =====
-- `net.SplitHostPort` takes apart what a host and a port make, and fails on a text with no port.
use Prim.Native.Char.{Char}
use Prim.Native.String.{String}
use text.Mathlib.TextLemmas.{nil-append, cons-append}
use cluster_api_control_plan.Base.{ℕ, ◌≡◌, refl, true, false, ◌<>◌, none, some, arith}
use cluster_api_control_plan.GoNet.Strings.{is_char, has_char, split_last}
use cluster_api_control_plan.GoNet.Addresses.{
  host_port, addr_error, missing_port, plain, split_host_port,
}

-- Neither a colon nor a bracket.
pub record IsBare (s : String) : Type 0 where
  pub no_colon : has_char b':' s ≡ false
  pub no_open : has_char b'[' s ≡ false
  pub no_close : has_char b']' s ≡ false

split_last-none : (n : ℕ) (s : String) → has_char n s ≡ false → split_last n s ≡ none
unfolding has_char split_last
split_last-none n String.[] h = refl
split_last-none n (String.◌∷◌ c s) h = ground (arith, split_last-none n s)

split_last-append :
    (n : ℕ) (c : Char) (a b : String)
    → is_char n c ≡ true
    → has_char n b ≡ false
    → split_last n (a <> String.◌∷◌ c b) ≡ some (a, b)
unfolding split_last
split_last-append n c String.[] b sep clean =
    rw nil-append (ground (arith, split_last-none n b clean))
split_last-append n c (String.◌∷◌ x a) b sep clean =
    rw cons-append (ground (arith, split_last-append n c a b sep clean))

plain-IsBare :
    (host port : String) → IsBare host → IsBare port → plain host port ≡ host_port host port
unfolding plain
plain-IsBare host port h p = ground arith

first_not_open :
    (c : Char) (s : String) → has_char b'[' (String.◌∷◌ c s) ≡ false → is_char b'[' c ≡ false
unfolding has_char
first_not_open c s h = ground arith

-- A host and a port with neither colons nor brackets are read back.
pub split_host_port-append :
    (host port : String)
    → IsBare host
    → IsBare port
    → split_host_port (host <> String.◌∷◌ ":" port) ≡ host_port host port
unfolding split_host_port
split_host_port-append String.[] port h p =
    let e = split_last-append b':' ":" String.[] port refl p.no_colon in
    rw nil-append (rw (rw nil-append at e, split_host_port) (plain-IsBare String.[] port h p))
split_host_port-append (String.◌∷◌ c host) port h p =
    let e = split_last-append b':' ":" (String.◌∷◌ c host) port refl p.no_colon in
    rw cons-append (
      rw (rw cons-append at e, first_not_open c host h.no_open, split_host_port)
        (plain-IsBare (String.◌∷◌ c host) port h p))

-- A text with no colon has no port.
pub split_host_port-missing :
    (s : String) → has_char b':' s ≡ false → split_host_port s ≡ addr_error missing_port
unfolding split_host_port
split_host_port-missing String.[] h = refl
split_host_port-missing (String.◌∷◌ c s) h =
    rw (split_last-none b':' (String.◌∷◌ c s) h, split_host_port)
