-- ===== src/Xdma/Error.antt =====
-- `Error` of sw/rust/warpshell/src/xdma/mod.rs, over `std::io::Error`.
use warpshell.Base.{ℕ}

pub data XdmaError (E : Type 0) : Type 0 where
  ctrl_read_failed ctrl_write_failed : E → XdmaError E
  -- with the number of the channel
  dma_read_failed dma_write_failed : ℕ → E → XdmaError E
  dev_node : E → XdmaError E
