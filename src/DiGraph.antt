-- ===== src/DiGraph.antt =====
-- networkx's `DiGraph` as the program uses it: what its documentation says, as a parameter. `N` and
-- `E` are the attributes of a node and of an edge.
pub mod Defs
pub mod Table
pub use Defs.*
