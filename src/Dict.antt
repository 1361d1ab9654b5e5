-- ===== src/Dict.antt =====
-- Python's `dict` with string keys, used by every component: an association list in insertion
-- order. A key that is set again keeps its place, as in Python.
mod Defs
mod Laws
mod Sums
unfoldable pub use Defs.{Dict, get, put, remove, values, keys, in_keys}
pub use Laws.*
pub use Sums.*
