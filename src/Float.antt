-- ===== src/Float.antt =====
-- Python's `float` as an interface with laws, and an instance that shows that they can be met.
mod Interface
pub mod Micros
pub mod Order
unfoldable pub use Interface.*
