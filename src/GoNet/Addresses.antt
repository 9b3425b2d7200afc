-- ===== src/GoNet/Addresses.antt =====
-- `net.SplitHostPort`: "host:port", "[host]:port", with the errors of `net.AddrError`.
use Prim.Native.String.{String}
use cluster_api_control_plan.Base.{Bool, ◌||◌, none, some, if◌then◌else◌}
use cluster_api_control_plan.GoNet.Strings.{is_char, has_char, split_first, split_last}

pub data AddrError : Type 0 where
  missing_port too_many_colons missing_bracket unexpected_open unexpected_close : AddrError

pub data HostPort : Type 0 where
  host_port : String → String → HostPort
  addr_error : AddrError → HostPort

-- The last two tests: `outer` is `hostport[j:]`, `behind` is `hostport[k:]`.
unfoldable pub check_brackets : Bool → Bool → String → String → HostPort
check_brackets open_in_outer close_behind host port =
    if open_in_outer
    then addr_error unexpected_open
    else if close_behind
    then addr_error unexpected_close
    else host_port host port

-- What stands behind the "]" of a bracketed host.
unfoldable pub after_bracket : String → String → HostPort
unfolding check_brackets
after_bracket host String.[] = addr_error missing_port
after_bracket host (String.◌∷◌ c port) =
    if is_char b':' c
    then if has_char b':' port
      then addr_error too_many_colons
      else check_brackets (has_char b'[' host || has_char b'[' port) (has_char b']' port) host port
    else addr_error missing_port

-- The text begins with "[" and `rest` follows.
unfoldable pub bracketed : String → HostPort
unfolding after_bracket
bracketed rest = elim (split_first b']' rest) [
  | none ↦ addr_error missing_bracket
  | some (host, behind) ↦ after_bracket host behind
]

-- A host with no brackets before the last colon.
unfoldable pub plain : String → String → HostPort
unfolding check_brackets
plain host port =
    if has_char b':' host
    then addr_error too_many_colons
    else check_brackets (has_char b'[' host || has_char b'[' port)
        (has_char b']' host || has_char b']' port) host port

unfoldable pub split_host_port : String → HostPort
split_host_port String.[] = addr_error missing_port
split_host_port (String.◌∷◌ c rest) = elim (split_last b':' (String.◌∷◌ c rest)) [
  | none ↦ addr_error missing_port
  | some (host, port) ↦ if is_char b'[' c then bracketed rest else plain host port
]
