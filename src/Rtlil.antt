-- ===== src/Rtlil.antt =====
-- What the plugin calls: Yosys' RTLIL (kernel/rtlil.h, kernel/celltypes.h of the `lib/` submodule)
-- and the hash containers of include/ankerl/unordered_dense.hpp. Neither is TaMaRa's own code, so
-- each is an interface, a parameter of every module here, with the documented behaviour that a
-- theorem relies on as a record of laws.
pub mod Containers
pub mod Kernel
pub mod Circuit
pub mod Gates
pub mod Wires
pub mod Intact
pub mod Attributes
pub mod Ports
pub mod NewCells
pub mod Platform
