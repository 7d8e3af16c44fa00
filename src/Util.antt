-- ===== src/Util.antt =====
-- include/tamara/util.hpp and src/util.cpp.
pub mod Names
pub mod Connections
pub mod Links
pub mod Neighbours
pub mod Plain
pub mod Outputs
pub mod Signals
pub mod Lookups
pub mod Dump
pub mod Terminal
