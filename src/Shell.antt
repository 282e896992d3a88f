-- ===== src/Shell.antt =====
-- sw/rust/warpshell/src/shells/xilinx_u55n_xdma_std.rs and mod.rs: the shell of the Xilinx U55N card,
-- its cores at their base addresses, and programming of the user image.
pub mod Quiet
pub mod Program
pub mod Sequence
pub mod Channels
pub mod Cores
pub mod Idle
pub mod Phases
pub mod Calm
pub mod Costs
pub mod Race
pub mod Map
pub mod Segments
use warpshell.Base.{ℕ, List, Bool}
use warpshell.System.{Call, Os}
use warpshell.Outcome.{Outcome, ok, err, panic, Exec, ◌>>◌, pure, panics, raise, map_err}
use warpshell.Based.{BasedError, reg_mask_not_as_expected, BasedCtrlOps, BasedDmaOps}
use warpshell.Xdma.{
  CtrlChannel, DmaChannel, ctrl_ops, dma_ops, OnceCellCtrlChannel, OnceCellDmaChannel,
  ctrl_get_or_init, dma_get_or_init,
}
use warpshell.Xdma.Error.{XdmaError}
use warpshell.Cms
use warpshell.Cms.{CmsError}
use warpshell.AxiFirewall.{AxiFirewallError, block_mi, unblock_mi}
use warpshell.DfxDecoupler.{DfxDecouplerError}
use warpshell.Hbicap.{
  HbicapError, based_error, from_secs, poll_done_every_10ms, write_bitstream, abort,
}

pub data ShellError (E : Type 0) : Type 0 where
  xdma : XdmaError E → ShellError E
  based : BasedError E → ShellError E
  cms : CmsError E → ShellError E
  hbicap_not_ready : ShellError E
  hbicap : HbicapError E → ShellError E
  dfx_decoupler : DfxDecouplerError E → ShellError E
  axi_firewall : AxiFirewallError E → ShellError E

-- The interfaces on the card's control and DMA channels
pub data Core : Type 0 where
  cms_core ctrl_axi_firewall_core dma_axi_firewall_core hbicap_ctrl_if : Core
  dfx_decoupler_core hbm_core hbicap_dma_if : Core

-- `BASE_ADDR`
unfoldable pub base_addr : Core → ℕ
base_addr cms_core = 0x0400_0000
base_addr hbm_core = 0
base_addr ctrl_axi_firewall_core = 0x0407_0000
base_addr dma_axi_firewall_core = 0x0408_0000
base_addr hbicap_ctrl_if = 0x0405_0000
base_addr hbicap_dma_if = 0x1000_0000_0000_0000
base_addr dfx_decoupler_core = 0x0409_0000

-- All cores share one channel of each kind.
pub record XilinxU55nXdmaStd : Type 0 where
  pub ctrl_channel : CtrlChannel
  pub dma_channel : DmaChannel

-- The statics `CTRL_CHANNEL` and `DMA_CHANNEL0`
pub record Statics : Type 0 where
  pub ctrl_cell : OnceCellCtrlChannel
  pub dma_cell : OnceCellDmaChannel

module _ {E : Type 0} where
  unfoldable pub with_channels :
      CtrlChannel → Outcome (XdmaError E) DmaChannel → Outcome (ShellError E) XilinxU55nXdmaStd
  with_channels ch (ok dma) = ok (record { ctrl_channel = ch; dma_channel = dma })
  with_channels ch (err e) = err (xdma e)
  with_channels ch panic = panic

module _ {E : Type 0} (os : Os E) where
  abbrev pub open_dma :
      Statics
      → Outcome (XdmaError E) CtrlChannel × OnceCellCtrlChannel × List Call
      → Outcome (ShellError E) XilinxU55nXdmaStd × Statics × List Call
  open_dma s (ok ch, cell, calls) =
      let r = dma_get_or_init os s.dma_cell calls in
      (with_channels ch r.0, record { ctrl_cell = cell; dma_cell = r.1 }, r.2)
  open_dma s (err e, cell, calls) = (err (xdma e), record s { ctrl_cell = cell }, calls)
  open_dma s (panic, cell, calls) = (panic, record s { ctrl_cell = cell }, calls)

  -- `XilinxU55nXdmaStd::new`
  unfoldable pub new :
      Statics → List Call → Outcome (ShellError E) XilinxU55nXdmaStd × Statics × List Call
  unfolding with_channels
  new s calls = open_dma s (ctrl_get_or_init os s.ctrl_cell calls)

  module _ (sh : XilinxU55nXdmaStd) where
    -- A core of the shell on the control channel, and one on the DMA channel
    abbrev pub on_ctrl : Core → BasedCtrlOps E
    on_ctrl core = ctrl_ops os sh.ctrl_channel (base_addr core)

    abbrev pub on_dma : Core → BasedDmaOps E
    on_dma core = dma_ops os sh.dma_channel (base_addr core)

    -- `Shell::init`
    unfoldable pub init : Exec (ShellError E) Unit
    init = map_err cms (Cms.init (on_ctrl cms_core))

    -- The `match` on the first poll: a busy core is aborted.
    unfoldable pub or_abort : Bool → Outcome (HbicapError E) ℕ → Exec (ShellError E) Unit
    or_abort debug (ok tries) = pure tt
    or_abort debug (err (based_error (reg_mask_not_as_expected offset mask expected))) =
        map_err hbicap (abort (on_ctrl hbicap_ctrl_if) (on_dma hbicap_dma_if) debug)
    or_abort debug (err e) = raise (hbicap e)
    or_abort debug panic = panics

    -- Waits for the HBICAP core, or aborts what it is doing.
    unfoldable pub make_idle : Bool → Exec (ShellError E) Unit
    unfolding or_abort
    make_idle debug calls =
        let polled =
          poll_done_every_10ms (on_ctrl hbicap_ctrl_if) (on_dma hbicap_dma_if) (from_secs 10)
            calls in
        or_abort debug polled.0 polled.1

    -- `Shell::program_user_image`
    unfoldable pub program_user_image : Bool → List ℕ → Exec (ShellError E) Unit
    program_user_image debug image = do
      make_idle debug
      map_err axi_firewall (block_mi (on_ctrl ctrl_axi_firewall_core))
      map_err axi_firewall (block_mi (on_ctrl dma_axi_firewall_core))
      map_err hbicap (write_bitstream (on_ctrl hbicap_ctrl_if) (on_dma hbicap_dma_if) image)
      map_err hbicap
          (poll_done_every_10ms (on_ctrl hbicap_ctrl_if) (on_dma hbicap_dma_if) (from_secs 10))
      map_err axi_firewall (unblock_mi (on_ctrl dma_axi_firewall_core))
      map_err axi_firewall (unblock_mi (on_ctrl ctrl_axi_firewall_core))
