-- ===== src/Examples.antt =====
-- The theorems at concrete netlists, and runs of the functions.
mod Voters
mod Analysis
mod Bypass
mod Cones
mod Replication
mod Rewiring
mod Command
mod Whole
mod Upset
mod Protection
mod Dumps
mod Debugging
