-- ===== src/Values.antt =====
-- The values that specs, inputs and outputs are made of: what `json.loads` returns.
mod Data
mod Equality
unfoldable pub use Data.*
unfoldable pub use Equality.*
