-- ===== src/Python.antt =====
-- What the stores use of Python: the values that `json.loads` returns, exceptions as results, and
-- the conversions of the `from_mapping` and `create` class methods. A JSON file is modelled by the
-- value that it holds.
mod Values
mod Results
mod Texts
mod Sets
mod Stored
mod Jsonl
mod Files
unfoldable pub use Values.*
unfoldable pub use Results.*
unfoldable pub use Texts.*
unfoldable pub use Sets.*
unfoldable pub use Stored.*
unfoldable pub use Jsonl.*
unfoldable pub use Files.*
