-- ===== src/GoNet.antt =====
-- The functions of Go's standard library on texts that the program calls: `strings.HasPrefix`,
-- `strings.TrimPrefix`, `strings.Split` by one byte, `net.SplitHostPort` and `strconv.ParseInt`.
-- The texts that they walk are taken apart by code points: every byte that is tested is ASCII.
mod Strings
mod Addresses
mod ParseInt
pub mod Splitting
pub mod Numbers
pub mod Joining
unfoldable pub use Strings.*
unfoldable pub use Addresses.*
unfoldable pub use ParseInt.*
