-- ===== src/Sample.antt =====
-- A small concrete platform, on which the theorems are tried: containers as lists, and a netlist
-- that records what was added to it.
pub mod Lists
pub mod Names
pub mod Objects
pub mod Netlist
pub mod Gates
pub mod Growth
pub mod Laws
pub mod Shared
