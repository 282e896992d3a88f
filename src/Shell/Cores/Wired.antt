-- ===== src/Shell/Cores/Wired.antt =====
-- The structs of sw/rust/warpshell/src/shells/xilinx_u55n_xdma_std.rs and the two channels behind them.
use warpshell.Base.{ℕ, ◌+◌, List, ◌∷◌, ◌≡◌, refl, sym, ap, subst, ◌∙◌}
use warpshell.Base.Bytes.{u64, to_le_bytes}
use warpshell.System.{Call, read_exact_at, write_all_at, Os}
use warpshell.Based.{BasedCtrlOps, BasedDmaOps}
use warpshell.Xdma.Transport.{read_u32_calls, write_u32_calls}
use warpshell.Shell.Channels.{Filled, new-Filled}
use warpshell.Shell.Segments.{segment}
use warpshell.Outcome.{Outcome, ok, err, panic, ok-injective}
use warpshell.Xdma.{
  CtrlChannel, DmaChannel, OnceCellCtrlChannel, ctrl_get_or_init, dma_get_or_init, ctrl_ops,
  dma_ops,
}
use warpshell.Xdma.Error.{XdmaError}
use warpshell.Shell
use warpshell.Shell.{
  ShellError, Statics, on_ctrl, on_dma, open_dma, with_channels, base_addr, cms_core, hbm_core,
  ctrl_axi_firewall_core, dma_axi_firewall_core, hbicap_ctrl_if, hbicap_dma_if, dfx_decoupler_core,
}
use warpshell.Shell.Cores.{
  XilinxU55nXdmaStd, hbicap_ifs, cms_channel, cms_base, hbm_channel, hbm_base,
  ctrl_axi_firewall_channel, ctrl_axi_firewall_base, dma_axi_firewall_channel,
  dma_axi_firewall_base, hbicap_ctrl_if_channel, hbicap_ctrl_if_base, hbicap_dma_if_channel,
  hbicap_dma_if_base, dfx_decoupler_channel, dfx_decoupler_base, based_ctrl_ops, based_dma_ops,
  assemble, from_ctrl, from_dma, new,
}

module _ {E : Type 0} where
  -- The structs of a shell that is made, on its two channels
  abbrev pub structs :
      Outcome (ShellError E) Shell.XilinxU55nXdmaStd → Outcome (ShellError E) XilinxU55nXdmaStd
  structs (ok sh) = ok (assemble sh.ctrl_channel sh.dma_channel)
  structs (err e) = err e
  structs panic = panic

module _ {E : Type 0} (os : Os E) where
  -- The interface that each struct has by its traits is that of the core at its address on the shell's
  -- channel.
  pub record Interfaces (shell : XilinxU55nXdmaStd) (sh : Shell.XilinxU55nXdmaStd) : Type 0 where
    pub cms : based_ctrl_ops os shell.cms ≡ on_ctrl os sh cms_core
    pub hbm : based_dma_ops os shell.hbm ≡ on_dma os sh hbm_core
    pub ctrl_axi_firewall :
        based_ctrl_ops os shell.ctrl_axi_firewall ≡ on_ctrl os sh ctrl_axi_firewall_core
    pub dma_axi_firewall :
        based_ctrl_ops os shell.dma_axi_firewall ≡ on_ctrl os sh dma_axi_firewall_core
    pub hbicap_ctrl :
        based_ctrl_ops os (hbicap_ifs.get_ctrl_if shell.hbicap) ≡ on_ctrl os sh hbicap_ctrl_if
    pub hbicap_dma :
        based_dma_ops os (hbicap_ifs.get_dma_if shell.hbicap) ≡ on_dma os sh hbicap_dma_if
    pub dfx_decoupler : based_ctrl_ops os shell.dfx_decoupler ≡ on_ctrl os sh dfx_decoupler_core

  assemble-Interfaces :
      (sh : Shell.XilinxU55nXdmaStd) → Interfaces (assemble sh.ctrl_channel sh.dma_channel) sh
  unfolding assemble based_ctrl_ops based_dma_ops base_addr cms_channel cms_base hbm_channel
      hbm_base ctrl_axi_firewall_channel ctrl_axi_firewall_base dma_axi_firewall_channel
      dma_axi_firewall_base hbicap_ctrl_if_channel hbicap_ctrl_if_base hbicap_ifs
      hbicap_dma_if_channel hbicap_dma_if_base dfx_decoupler_channel dfx_decoupler_base
  assemble-Interfaces sh = record {
    cms = refl;
    hbm = refl;
    ctrl_axi_firewall = refl;
    dma_axi_firewall = refl;
    hbicap_ctrl = refl;
    hbicap_dma = refl;
    dfx_decoupler = refl;
  }

  -- Register accesses through `c` are single calls on the file of the control device, at offsets from
  -- `start`; bulk transfers through `d` are on the two files of the DMA device.
  pub record Reaches (c : BasedCtrlOps E) (ch : CtrlChannel) (start : ℕ) : Type 0 where
    pub reads :
        (offset : ℕ) (calls : List Call)
        → (c.based_ctrl_read_u32 offset calls).1
          ≡ read_exact_at ch.cdev 4 (u64 (start + offset)) ∷ calls
    pub writes :
        (offset value : ℕ) (calls : List Call)
        → (c.based_ctrl_write_u32 offset value calls).1
          ≡ write_all_at ch.cdev (to_le_bytes value) (u64 (start + offset)) ∷ calls

  pub record Transfers (d : BasedDmaOps E) (ch : DmaChannel) (start : ℕ) : Type 0 where
    pub reads :
        (len offset : ℕ) (calls : List Call)
        → (d.based_dma_read len offset calls).1
          ≡ read_exact_at ch.c2h_cdev len (u64 (start + offset)) ∷ calls
    pub writes :
        (bytes : List ℕ) (offset : ℕ) (calls : List Call)
        → (d.based_dma_write bytes offset calls).1
          ≡ write_all_at ch.h2c_cdev bytes (u64 (start + offset)) ∷ calls

  -- Each struct's interface reaches the segment that the block design has for its core, over the
  -- channels `ctrl` and `dma`.
  pub record Wired (shell : XilinxU55nXdmaStd) (ctrl : CtrlChannel) (dma : DmaChannel)
      : Type 0 where
    pub cms : Reaches (based_ctrl_ops os shell.cms) ctrl (segment cms_core).start
    pub hbm : Transfers (based_dma_ops os shell.hbm) dma (segment hbm_core).start
    pub ctrl_axi_firewall :
        Reaches
          (based_ctrl_ops os shell.ctrl_axi_firewall)
          ctrl
          (segment ctrl_axi_firewall_core).start
    pub dma_axi_firewall :
        Reaches
          (based_ctrl_ops os shell.dma_axi_firewall)
          ctrl
          (segment dma_axi_firewall_core).start
    pub hbicap_ctrl :
        Reaches
          (based_ctrl_ops os (hbicap_ifs.get_ctrl_if shell.hbicap))
          ctrl
          (segment hbicap_ctrl_if).start
    pub hbicap_dma :
        Transfers
          (based_dma_ops os (hbicap_ifs.get_dma_if shell.hbicap))
          dma
          (segment hbicap_dma_if).start
    pub dfx_decoupler :
        Reaches (based_ctrl_ops os shell.dfx_decoupler) ctrl (segment dfx_decoupler_core).start

  ctrl_ops-Reaches : (ch : CtrlChannel) (base : ℕ) → Reaches (ctrl_ops os ch base) ch base
  ctrl_ops-Reaches ch base = record {
    reads = read_u32_calls os ch base;
    writes = write_u32_calls os ch base;
  }

  dma_ops-Transfers : (ch : DmaChannel) (base : ℕ) → Transfers (dma_ops os ch base) ch base
  unfolding dma_ops
  dma_ops-Transfers ch base = record {
    reads = λ len offset calls. refl;
    writes = λ bytes offset calls. refl;
  }

  assemble-Wired : (ctrl : CtrlChannel) (dma : DmaChannel) → Wired (assemble ctrl dma) ctrl dma
  unfolding assemble based_ctrl_ops based_dma_ops cms_channel cms_base hbm_channel hbm_base
      ctrl_axi_firewall_channel ctrl_axi_firewall_base dma_axi_firewall_channel
      dma_axi_firewall_base hbicap_ctrl_if_channel hbicap_ctrl_if_base hbicap_ifs
      hbicap_dma_if_channel hbicap_dma_if_base dfx_decoupler_channel dfx_decoupler_base segment
  assemble-Wired ctrl dma = record {
    cms = ctrl_ops-Reaches ctrl 0x0400_0000;
    hbm = dma_ops-Transfers dma 0;
    ctrl_axi_firewall = ctrl_ops-Reaches ctrl 0x0407_0000;
    dma_axi_firewall = ctrl_ops-Reaches ctrl 0x0408_0000;
    hbicap_ctrl = ctrl_ops-Reaches ctrl 0x0405_0000;
    hbicap_dma = dma_ops-Transfers dma 0x1000_0000_0000_0000;
    dfx_decoupler = ctrl_ops-Reaches ctrl 0x0409_0000;
  }

  from_dma-structs :
      (ctrl : CtrlChannel) (r : Outcome (XdmaError E) DmaChannel)
      → from_dma ctrl r ≡ structs (with_channels ctrl r)
  unfolding with_channels
  from_dma-structs ctrl (ok dma) = refl
  from_dma-structs ctrl (err e) = refl
  from_dma-structs ctrl panic = refl

  from_ctrl-structs :
      (s : Statics) (r : Outcome (XdmaError E) CtrlChannel) (cell : OnceCellCtrlChannel)
      (log : List Call)
      → from_ctrl os s (r, cell, log) ≡ (
        structs (open_dma os s (r, cell, log)).0,
        (open_dma os s (r, cell, log)).1,
        (open_dma os s (r, cell, log)).2,
      )
  from_ctrl-structs s (ok ctrl) cell log =
      rw (from_dma-structs ctrl (dma_get_or_init os s.dma_cell log).0) refl
  from_ctrl-structs s (err e) cell log = refl
  from_ctrl-structs s panic cell log = refl

  -- On the statics and the log, `new` does what the shell of two channels does.
  pub new-structs :
      (s : Statics) (calls : List Call)
      → let made = Shell.new os s calls in new os s calls ≡ (structs made.0, made.1, made.2)
  unfolding new Shell.new
  new-structs s calls =
      let r = ctrl_get_or_init os s.ctrl_cell calls in from_ctrl-structs s r.0 r.1 r.2

  structs-ok :
      (r : Outcome (ShellError E) Shell.XilinxU55nXdmaStd) (shell : XilinxU55nXdmaStd)
      → structs r ≡ ok shell
      → (sh : Shell.XilinxU55nXdmaStd) × (r ≡ ok sh)
        × (assemble sh.ctrl_channel sh.dma_channel ≡ shell)
  structs-ok (ok sh) shell h = (sh, refl, ok-injective h)
  structs-ok (err e) shell h = absurd (cc h)
  structs-ok panic shell h = absurd (cc h)

  -- If `new` makes a shell, then the cells hold a control channel and a DMA channel over which each
  -- struct, by its derived getter, its base address and the blanket implementations, reaches the
  -- segment that the block design of the hardware has for its core: every access to a register is one
  -- call on the control device at the start of the segment plus the offset (modulo 2 ^ 64), every bulk
  -- transfer is one on the DMA device. The shell of these two channels is made from the same statics
  -- after the same calls, with the same statics and calls after it, and its cores have the same
  -- interfaces.
  pub new-Wired :
      (s : Statics) (calls : List Call) (shell : XilinxU55nXdmaStd)
      → (new os s calls).0 ≡ ok shell
      → (sh : Shell.XilinxU55nXdmaStd) × Filled os sh (new os s calls).1
        × Wired shell sh.ctrl_channel sh.dma_channel
        × (Shell.new os s calls ≡ (ok sh, (new os s calls).1, (new os s calls).2))
        × Interfaces shell sh
  new-Wired s calls shell h =
      let same = new-structs s calls in
      let (sh, e, k) = structs-ok (Shell.new os s calls).0 shell (sym (ap (λ r. r.0) same) ∙ h) in
      (
        sh,
        subst (Filled os sh) (ap (λ r. r.1) (sym same)) (new-Filled os s calls sh e),
        subst (λ t. Wired t sh.ctrl_channel sh.dma_channel) k
            (assemble-Wired sh.ctrl_channel sh.dma_channel),
        ap (λ r. (r, (Shell.new os s calls).1, (Shell.new os s calls).2)) e
            ∙ ap (λ r. (ok sh, r.1, r.2)) (sym same),
        subst (λ t. Interfaces t sh) k (assemble-Interfaces sh),
      )
