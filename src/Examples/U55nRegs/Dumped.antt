-- ===== src/Examples/U55nRegs/Dumped.antt =====
-- The whole run of sw/rust/warpshell/examples/u55n_regs.rs.
use warpshell.Base.{ℕ, List, ◌∷◌, Bool, ◌≡◌, refl, sym, ap, subst, ◌∙◌, arith, inl, inr}
use warpshell.System.{Call, sleep, Os}
use warpshell.Outcome.{Outcome-cases, ok, ok-injective, bind-ok_next}
use warpshell.AxiFirewall
use warpshell.AxiFirewall.{axi_firewall_offset, get_axi_firewall_reg}
use warpshell.Cms
use warpshell.Cms.{get_cms_reg}
use warpshell.Cms.Reg.{cms_offset}
use warpshell.Hbicap
use warpshell.Hbicap.{
  get_hbicap_reg, abort, poll_done_every_10ms, from_secs, config_logic_reg_readback,
}
use warpshell.Hbicap.Packet.{ConfigLogicReg, hbicap_offset}
use warpshell.Shell
use warpshell.Shell.{
  Statics, XilinxU55nXdmaStd, on_ctrl, cms_core, ctrl_axi_firewall_core, dma_axi_firewall_core,
  base_addr,
}
use warpshell.Examples.{expect}
use warpshell.Examples.U55nRegs.{
  Registers, Report, readings, config_readings, print_registers, with_shell, main,
}
use warpshell.Examples.U55nRegs.Dump.{
  c, d, Dump, Readbacks, expect-ok, readings-Dump, readings-Readbacks,
}

module _ {E : Type 0} (os : Os E) (sh : XilinxU55nXdmaStd) where
  -- A run that aborts, waits and reads the configuration registers back
  pub record Configured (all : Registers) (debug : Bool) (shown : List (ConfigLogicReg × ℕ))
      (calls log : List Call) : Type 0 where
    pub aborted : (abort (c os sh) (d os sh) debug calls).0 ≡ ok tt
    pub tries : ℕ
    pub waited :
        (poll_done_every_10ms
          (c os sh)
          (d os sh)
          (from_secs 10)
          (abort (c os sh) (d os sh) debug calls).1).0
        ≡ ok tries
    pub readbacks :
        Readbacks os sh all.config_logic shown
          (poll_done_every_10ms
            (c os sh)
            (d os sh)
            (from_secs 10)
            (abort (c os sh) (d os sh) debug calls).1).1
          log

  -- A run that prints all registers, with the logs after its parts
  pub record Dumped (all : Registers) (debug : Bool) (report : Report) (calls log : List Call)
      : Type 0 where
    pub initialised : (Shell.init os sh calls).0 ≡ ok tt
    pub read_cms : List Call
    pub cms :
        Dump os sh.ctrl_channel 0x0400_0000 cms_offset all.cms report.cms
          (sleep 100_000_000 ∷ (Shell.init os sh calls).1)
          read_cms
    pub read_ctrl : List Call
    pub ctrl :
        Dump os sh.ctrl_channel 0x0407_0000 axi_firewall_offset all.axi_firewall
          report.ctrl_axi_firewall read_cms read_ctrl
    pub read_dma : List Call
    pub dma :
        Dump os sh.ctrl_channel 0x0408_0000 axi_firewall_offset all.axi_firewall
          report.dma_axi_firewall read_ctrl read_dma
    pub read_hbicap : List Call
    pub hbicap :
        Dump os sh.ctrl_channel 0x0405_0000 hbicap_offset all.hbicap report.hbicap read_dma
          read_hbicap
    pub config : Configured all debug report.config_logic read_hbicap log

  config_readings-Configured :
      (all : Registers) (debug : Bool) (calls : List Call) {shown : List (ConfigLogicReg × ℕ)}
      → (config_readings os all sh debug calls).0 ≡ ok shown
      → Configured all debug shown calls (config_readings os all sh debug calls).1
  unfolding config_readings expect
  config_readings-Configured all debug calls h =
      let (u, a₁, l₁, h₁) = bind-ok_next (expect (abort (c os sh) (d os sh) debug)) _ calls h in
      let s₁ : List Call = (abort (c os sh) (d os sh) debug calls).1 in
      let wait = poll_done_every_10ms (c os sh) (d os sh) (from_secs 10) in
      let (t, a₂, l₂, h₂) = bind-ok_next (expect wait) _ s₁ h₁ in
      record {
        aborted = expect-ok (abort (c os sh) (d os sh) debug) calls a₁;
        tries = t;
        waited = expect-ok wait s₁ a₂;
        readbacks =
            subst (Readbacks os sh all.config_logic _ (wait s₁).1) (sym (l₁ ∙ l₂))
              (readings-Readbacks os sh all.config_logic (wait s₁).1 h₂);
      }

  print_registers-Dumped :
      (all : Registers) (debug : Bool) (calls : List Call) {report : Report}
      → (print_registers os all sh debug calls).0 ≡ ok report
      → Dumped all debug report calls (print_registers os all sh debug calls).1
  unfolding print_registers expect get_cms_reg get_axi_firewall_reg get_hbicap_reg base_addr
  print_registers-Dumped all debug calls {report} h =
      let (u, a, l₁, h₁) = bind-ok_next (expect (Shell.init os sh)) _ calls h in
      let s₁ : List Call = sleep 100_000_000 ∷ (Shell.init os sh calls).1 in
      let get_cms = get_cms_reg (on_ctrl os sh cms_core) in
      let (v₂, a₂, l₂, h₂) = bind-ok_next (readings get_cms all.cms) _ s₁ h₁ in
      let s₂ : List Call = (readings get_cms all.cms s₁).1 in
      let get_ctrl = get_axi_firewall_reg (on_ctrl os sh ctrl_axi_firewall_core) in
      let (v₃, a₃, l₃, h₃) = bind-ok_next (readings get_ctrl all.axi_firewall) _ s₂ h₂ in
      let s₃ : List Call = (readings get_ctrl all.axi_firewall s₂).1 in
      let get_dma = get_axi_firewall_reg (on_ctrl os sh dma_axi_firewall_core) in
      let (v₄, a₄, l₄, h₄) = bind-ok_next (readings get_dma all.axi_firewall) _ s₃ h₃ in
      let s₄ : List Call = (readings get_dma all.axi_firewall s₃).1 in
      let get_icap = get_hbicap_reg (c os sh) (d os sh) in
      let (v₅, a₅, l₅, h₅) = bind-ok_next (readings get_icap all.hbicap) _ s₄ h₄ in
      let s₅ : List Call = (readings get_icap all.hbicap s₄).1 in
      let (v₆, a₆, l₆, h₆) = bind-ok_next (config_readings os all sh debug) _ s₅ h₅ in
      let whole : record {
        cms = v₂;
        ctrl_axi_firewall = v₃;
        dma_axi_firewall = v₄;
        hbicap = v₅;
        config_logic = v₆;
      }
          ≡ report =
        ok-injective h₆ in
      subst (λ r. Dumped all debug r calls (print_registers os all sh debug calls).1) whole
        (record {
          initialised = expect-ok (Shell.init os sh) calls a;
          read_cms = s₂;
          cms =
              readings-Dump os sh.ctrl_channel 0x0400_0000 Cms.based_error cms_offset all.cms s₁ a₂;
          read_ctrl = s₃;
          ctrl =
              readings-Dump os sh.ctrl_channel 0x0407_0000 AxiFirewall.based_error
                axi_firewall_offset all.axi_firewall s₂ a₃;
          read_dma = s₄;
          dma =
              readings-Dump os sh.ctrl_channel 0x0408_0000 AxiFirewall.based_error
                axi_firewall_offset all.axi_firewall s₃ a₄;
          read_hbicap = s₅;
          hbicap =
              readings-Dump os sh.ctrl_channel 0x0405_0000 Hbicap.based_error hbicap_offset
                all.hbicap s₄ a₅;
          config =
              subst (Configured all debug v₆ s₅) (sym (l₁ ∙ l₂ ∙ l₃ ∙ l₄ ∙ l₅ ∙ l₆))
                (config_readings-Configured all debug s₅ a₆);
        })

-- If the example succeeds, it has connected to a shell, initialised it and slept for 100 ms, and then
-- read each register of the CMS core, of both AXI firewalls and of the HBICAP core that it was given,
-- once and in the order given, at its address; then it has aborted what the HBICAP core was doing,
-- waited for the core, and read back each configuration register given, once and in order, by the
-- readback protocol. The readings that it prints are the words that the device answered with.
pub main-Dumped :
    {E : Type 0} (os : Os E) (all : Registers) (statics : Statics) (debug : Bool)
    (calls : List Call) {report : Report}
    → (main os all statics debug calls).0 ≡ ok report
    → let connected = Shell.new os statics calls in
      (sh : XilinxU55nXdmaStd) × (connected.0 ≡ ok sh)
      × Dumped os sh all debug report connected.2 (main os all statics debug calls).1
unfolding main with_shell
main-Dumped os all statics debug calls {report} h =
    let log : List Call = (Shell.new os statics calls).2 in
    elim (Outcome-cases (Shell.new os statics calls).0) [
      | inl (sh, e) ↦
          let same : (main os all statics debug calls) ≡ print_registers os all sh debug log =
            rw e refl in
          let run : (print_registers os all sh debug log).0 ≡ ok report =
            ap (λ r. r.0) (sym same) ∙ h in
          (
            sh,
            e,
            subst (Dumped os sh all debug report log) (ap (λ r. r.1) (sym same))
                (print_registers-Dumped os sh all debug log run),
          )
      | inr (inl (x, e)) ↦ absurd (ground arith)
      | inr (inr e) ↦ absurd (ground arith)
    ]
