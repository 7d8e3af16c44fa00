-- ===== src/Rtlil/Platform.antt =====
-- RTLIL together with the containers that the plugin keeps its objects in.
use tamara.Common.{String}
use tamara.Rtlil.Containers.{HashSet, HashMap}
use tamara.Rtlil.Kernel.{AnyPtr, Kernel}

pub record Platform : Type 1 where
  pub kernel : Kernel
  -- RTLILAnyPtrSet, RTLILSigSpecSet and the sets of names
  pub ptr_set : HashSet (AnyPtr kernel.Wire kernel.Cell)
  pub signal_set : HashSet kernel.SigSpec
  pub name_set : HashSet String
  -- RTLILWireConnections and RTLILAnySignalConnections
  pub wire_map : HashMap (AnyPtr kernel.Wire kernel.Cell) ptr_set.Set
  pub signal_map : HashMap (AnyPtr kernel.Wire kernel.Cell) signal_set.Set
