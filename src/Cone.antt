-- ===== src/Cone.antt =====
-- src/logic_graph.cpp and include/tamara/logic_graph.hpp: the graph nodes and the logic cones.
pub mod Node
pub mod Search
pub mod Replicate
pub mod Wiring
pub mod Successors
