-- ===== src/Float.antt =====
-- Python's `float`, of which antt has no model: IEEE 754 doubles as a parameter. A value is a
-- finite double, with the two zeros taken as one: an overflow to infinity and NaN are outside the
-- model, and some laws, as that on a product with zero, fail of them. All comparisons go by its place in the order;
-- a literal is the double nearest to a whole number of millionths. The laws are those of rounding
-- to nearest: rounding is monotone and exact results are kept. What Python formats stays abstract.
mod Defs
pub mod Laws
pub mod Fixed
unfoldable pub use Defs.*
