-- ===== src/Shell/Cores.antt =====
-- The cores of sw/rust/warpshell/src/shells/xilinx_u55n_xdma_std.rs as structs, with the traits of
-- sw/rust/warpshell/src/lib.rs, xdma/mod.rs and cores/hbicap.rs that give them their interfaces.
pub mod Wired
use warpshell.Base.{ℕ, List}
use warpshell.System.{Call, Os}
use warpshell.Outcome.{Outcome, ok, err, panic}
use warpshell.Based.{BasedCtrlOps, BasedDmaOps}
use warpshell.Xdma.{
  CtrlChannel, DmaChannel, OnceCellCtrlChannel, ctrl_get_or_init, dma_get_or_init, ctrl_ops,
  dma_ops,
}
use warpshell.Xdma.Error.{XdmaError}
use warpshell.Shell.{ShellError, xdma, Statics}

-- The traits
pub record BaseParam (T : Type 0) : Type 0 where
  pub base_address : ℕ

pub record GetCtrlChannel (T : Type 0) : Type 0 where
  pub get_ctrl_channel : T → CtrlChannel

pub record GetDmaChannel (T : Type 0) : Type 0 where
  pub get_dma_channel : T → DmaChannel

pub record GetHbicapIf (C D T : Type 0) : Type 0 where
  pub get_ctrl_if : T → C
  pub get_dma_if : T → D

-- The structs
pub record Cms : Type 0 where
  pub ctrl_channel : CtrlChannel

pub record Hbm : Type 0 where
  pub dma_channel : DmaChannel

pub record CtrlAxiFirewall : Type 0 where
  pub ctrl_channel : CtrlChannel

pub record DmaAxiFirewall : Type 0 where
  pub ctrl_channel : CtrlChannel

pub record HbicapCtrlIf : Type 0 where
  pub ctrl_channel : CtrlChannel

pub record HbicapDmaIf : Type 0 where
  pub dma_channel : DmaChannel

pub record Hbicap : Type 0 where
  pub ctrl_if : HbicapCtrlIf
  pub dma_if : HbicapDmaIf

pub record DfxDecoupler : Type 0 where
  pub ctrl_channel : CtrlChannel

pub record XilinxU55nXdmaStd : Type 0 where
  pub cms : Cms
  pub hbm : Hbm
  pub ctrl_axi_firewall : CtrlAxiFirewall
  pub dma_axi_firewall : DmaAxiFirewall
  pub hbicap : Hbicap
  pub dfx_decoupler : DfxDecoupler

-- `#[derive(GetCtrlChannel)]` and `impl BaseParam`, struct by struct
instance unfoldable pub cms_channel : GetCtrlChannel Cms
cms_channel = record { get_ctrl_channel = λ t. t.ctrl_channel }

instance unfoldable pub cms_base : BaseParam Cms
cms_base = record { base_address = 0x0400_0000 }

instance unfoldable pub hbm_channel : GetDmaChannel Hbm
hbm_channel = record { get_dma_channel = λ t. t.dma_channel }

instance unfoldable pub hbm_base : BaseParam Hbm
hbm_base = record { base_address = 0 }

instance unfoldable pub ctrl_axi_firewall_channel : GetCtrlChannel CtrlAxiFirewall
ctrl_axi_firewall_channel = record { get_ctrl_channel = λ t. t.ctrl_channel }

instance unfoldable pub ctrl_axi_firewall_base : BaseParam CtrlAxiFirewall
ctrl_axi_firewall_base = record { base_address = 0x0407_0000 }

instance unfoldable pub dma_axi_firewall_channel : GetCtrlChannel DmaAxiFirewall
dma_axi_firewall_channel = record { get_ctrl_channel = λ t. t.ctrl_channel }

instance unfoldable pub dma_axi_firewall_base : BaseParam DmaAxiFirewall
dma_axi_firewall_base = record { base_address = 0x0408_0000 }

instance unfoldable pub hbicap_ctrl_if_channel : GetCtrlChannel HbicapCtrlIf
hbicap_ctrl_if_channel = record { get_ctrl_channel = λ t. t.ctrl_channel }

instance unfoldable pub hbicap_ctrl_if_base : BaseParam HbicapCtrlIf
hbicap_ctrl_if_base = record { base_address = 0x0405_0000 }

instance unfoldable pub hbicap_dma_if_channel : GetDmaChannel HbicapDmaIf
hbicap_dma_if_channel = record { get_dma_channel = λ t. t.dma_channel }

instance unfoldable pub hbicap_dma_if_base : BaseParam HbicapDmaIf
hbicap_dma_if_base = record { base_address = 0x1000_0000_0000_0000 }

instance unfoldable pub hbicap_ifs : GetHbicapIf HbicapCtrlIf HbicapDmaIf Hbicap
hbicap_ifs = record { get_ctrl_if = λ t. t.ctrl_if; get_dma_if = λ t. t.dma_if }

instance unfoldable pub dfx_decoupler_channel : GetCtrlChannel DfxDecoupler
dfx_decoupler_channel = record { get_ctrl_channel = λ t. t.ctrl_channel }

instance unfoldable pub dfx_decoupler_base : BaseParam DfxDecoupler
dfx_decoupler_base = record { base_address = 0x0409_0000 }

module _ {E : Type 0} (os : Os E) where
  -- `impl<T: GetCtrlChannel + BaseParam> BasedCtrlOps for T`
  unfoldable pub based_ctrl_ops :
      {T : Type 0} ⦃g : GetCtrlChannel T⦄ ⦃b : BaseParam T⦄ → T → BasedCtrlOps E
  based_ctrl_ops ⦃g⦄ ⦃b⦄ t = ctrl_ops os (g.get_ctrl_channel t) b.base_address

  -- `impl<T: GetDmaChannel + BaseParam> BasedDmaOps for T`
  unfoldable pub based_dma_ops :
      {T : Type 0} ⦃g : GetDmaChannel T⦄ ⦃b : BaseParam T⦄ → T → BasedDmaOps E
  based_dma_ops ⦃g⦄ ⦃b⦄ t = dma_ops os (g.get_dma_channel t) b.base_address

-- The cores around the two channels, at the end of `new`
unfoldable pub assemble : CtrlChannel → DmaChannel → XilinxU55nXdmaStd
assemble ctrl dma = record {
  cms = record { ctrl_channel = ctrl };
  hbm = record { dma_channel = dma };
  ctrl_axi_firewall = record { ctrl_channel = ctrl };
  dma_axi_firewall = record { ctrl_channel = ctrl };
  hbicap = record {
    ctrl_if = record { ctrl_channel = ctrl };
    dma_if = record { dma_channel = dma };
  };
  dfx_decoupler = record { ctrl_channel = ctrl };
}

module _ {E : Type 0} where
  abbrev pub from_dma :
      CtrlChannel → Outcome (XdmaError E) DmaChannel → Outcome (ShellError E) XilinxU55nXdmaStd
  from_dma ctrl (ok dma) = ok (assemble ctrl dma)
  from_dma ctrl (err e) = err (xdma e)
  from_dma ctrl panic = panic

module _ {E : Type 0} (os : Os E) where
  abbrev pub from_ctrl :
      Statics
      → Outcome (XdmaError E) CtrlChannel × OnceCellCtrlChannel × List Call
      → Outcome (ShellError E) XilinxU55nXdmaStd × Statics × List Call
  from_ctrl s (ok ctrl, cell, calls) =
      let r = dma_get_or_init os s.dma_cell calls in
      (from_dma ctrl r.0, record { ctrl_cell = cell; dma_cell = r.1 }, r.2)
  from_ctrl s (err e, cell, calls) = (err (xdma e), record s { ctrl_cell = cell }, calls)
  from_ctrl s (panic, cell, calls) = (panic, record s { ctrl_cell = cell }, calls)

  -- `XilinxU55nXdmaStd::new`
  unfoldable pub new :
      Statics → List Call → Outcome (ShellError E) XilinxU55nXdmaStd × Statics × List Call
  unfolding assemble
  new s calls = from_ctrl s (ctrl_get_or_init os s.ctrl_cell calls)
