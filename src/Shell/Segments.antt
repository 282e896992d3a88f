-- ===== src/Shell/Segments.antt =====
-- The address segments of the card's cores in the block design of the hardware,
-- hw/shells/xilinx_u55n/xdma_gen4x4/shell.bd. That of xdma_gen3x8 has the same.
use warpshell.Base.{ℕ, ◌*◌, ◌^◌}
use warpshell.Shell.{
  Core, cms_core, ctrl_axi_firewall_core, dma_axi_firewall_core, hbicap_ctrl_if, dfx_decoupler_core,
  hbm_core, hbicap_dma_if,
}

pub record Segment : Type 0 where
  pub start : ℕ
  pub range : ℕ

-- The segment that the XDMA bridge has for the slave behind each core: `M_AXI_LITE` for registers,
-- `M_AXI` for bulk data. The memory is behind `shell_axi_dma`.
unfoldable pub segment : Core → Segment
segment hbicap_dma_if = record { start = 0x1000_0000_0000_0000; range = 2 ^ 30 }
segment hbm_core = record { start = 0; range = 256 * 2 ^ 40 }
segment cms_core = record { start = 0x0400_0000; range = 256 * 2 ^ 10 }
segment ctrl_axi_firewall_core = record { start = 0x0407_0000; range = 64 * 2 ^ 10 }
segment dfx_decoupler_core = record { start = 0x0409_0000; range = 64 * 2 ^ 10 }
segment dma_axi_firewall_core = record { start = 0x0408_0000; range = 64 * 2 ^ 10 }
segment hbicap_ctrl_if = record { start = 0x0405_0000; range = 64 * 2 ^ 10 }
