-- ===== src/Examples/U55nRegs.antt =====
-- sw/rust/warpshell/examples/u55n_regs.rs, with the readings that it prints. The lists of all
-- registers of a kind come from the crate enum_iterator and are parameters.
pub mod Dump
pub mod Dumped
use warpshell.Base.{ℕ, List, [], ◌∷◌, Bool}
use warpshell.System.{Call, sleep, Os}
use warpshell.Outcome.{Outcome, ok, err, panic, Exec, ◌>>=◌, ◌>>◌, pure, panics}
use warpshell.Based.{thread_sleep}
use warpshell.AxiFirewall.{AxiFirewallReg, get_axi_firewall_reg}
use warpshell.Cms.{get_cms_reg}
use warpshell.Cms.Reg.{CmsReg}
use warpshell.Hbicap.{
  get_hbicap_reg, abort, poll_done_every_10ms, from_secs, from_millis, config_logic_reg_readback,
}
use warpshell.Hbicap.Packet.{HbicapReg, ConfigLogicReg}
use warpshell.Shell
use warpshell.Shell.{
  ShellError, Statics, XilinxU55nXdmaStd, on_ctrl, on_dma, cms_core, ctrl_axi_firewall_core,
  dma_axi_firewall_core, hbicap_ctrl_if, hbicap_dma_if,
}
use warpshell.Examples.{Program, expect}

-- `all::<R>()` for the four kinds of registers
pub record Registers : Type 0 where
  pub cms : List CmsReg
  pub axi_firewall : List AxiFirewallReg
  pub hbicap : List HbicapReg
  pub config_logic : List ConfigLogicReg

-- The readings that are printed, under each heading
pub record Report : Type 0 where
  pub cms : List (CmsReg × ℕ)
  pub ctrl_axi_firewall : List (AxiFirewallReg × ℕ)
  pub dma_axi_firewall : List (AxiFirewallReg × ℕ)
  pub hbicap : List (HbicapReg × ℕ)
  pub config_logic : List (ConfigLogicReg × ℕ)

-- `for reg in all::<R>() { println!(.., get(reg).expect("no reading")) }`
unfoldable pub readings : {X R : Type 0} → (R → Exec X ℕ) → List R → Program (List (R × ℕ))
unfolding expect
readings get [] = pure []
readings get (reg ∷ regs) = do
  v ← expect (get reg)
  rest ← readings get regs
  pure ((reg, v) ∷ rest)

module _ {E : Type 0} (os : Os E) (all : Registers) where
  module _ (sh : XilinxU55nXdmaStd) (debug : Bool) where
    -- What is printed under the last heading
    unfoldable pub config_readings : Program (List (ConfigLogicReg × ℕ))
    unfolding readings expect
    config_readings = do
      expect (abort (on_ctrl os sh hbicap_ctrl_if) (on_dma os sh hbicap_dma_if) debug)
      expect (
          poll_done_every_10ms (on_ctrl os sh hbicap_ctrl_if) (on_dma os sh hbicap_dma_if)
            (from_secs 10))
      readings
          (config_logic_reg_readback (on_ctrl os sh hbicap_ctrl_if) (on_dma os sh hbicap_dma_if))
          all.config_logic

    unfoldable pub print_registers : Program Report
    unfolding readings expect thread_sleep config_readings
    print_registers = do
      expect (Shell.init os sh)
      thread_sleep (from_millis 100)
      cms ← readings (get_cms_reg (on_ctrl os sh cms_core)) all.cms
      ctrl ← readings (get_axi_firewall_reg (on_ctrl os sh ctrl_axi_firewall_core)) all.axi_firewall
      dma ← readings (get_axi_firewall_reg (on_ctrl os sh dma_axi_firewall_core)) all.axi_firewall
      hbicap ←
          readings (get_hbicap_reg (on_ctrl os sh hbicap_ctrl_if) (on_dma os sh hbicap_dma_if))
            all.hbicap
      config ← config_readings
      pure (record {
        cms = cms;
        ctrl_axi_firewall = ctrl;
        dma_axi_firewall = dma;
        hbicap = hbicap;
        config_logic = config;
      })

  unfoldable pub with_shell : Bool → Outcome (ShellError E) XilinxU55nXdmaStd → Program Report
  unfolding print_registers
  with_shell debug (ok sh) = print_registers sh debug
  with_shell debug (err e) = panics
  with_shell debug panic = panics

  unfoldable pub main : Statics → Bool → Program Report
  unfolding with_shell
  main statics debug calls =
      let connected = Shell.new os statics calls in with_shell debug connected.0 connected.2
