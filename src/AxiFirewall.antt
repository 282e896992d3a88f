-- ===== src/AxiFirewall.antt =====
-- sw/rust/warpshell/src/cores/axi_firewall.rs: the trait `AxiFirewallOps`, over any control interface.
use warpshell.Base.{ℕ, Bool, not, ◌==◌}
use warpshell.Outcome.{Exec, ◌>>=◌, ◌>>◌, pure, map_err}
use warpshell.Based.{BasedError, BasedCtrlOps}

abbrev pub mi_block_mask : ℕ
mi_block_mask = 0x0100_0100

pub data AxiFirewallError (E : Type 0) : Type 0 where
  based_error : BasedError E → AxiFirewallError E

pub data AxiFirewallReg : Type 0 where
  mi_side_fault_status mi_side_soft_fault_control mi_side_unblock_control : AxiFirewallReg
  ip_version : AxiFirewallReg
  si_side_fault_status si_side_soft_fault_control si_side_unblock_control : AxiFirewallReg

-- `reg as u64`
unfoldable pub axi_firewall_offset : AxiFirewallReg → ℕ
axi_firewall_offset mi_side_fault_status = 0x0
axi_firewall_offset mi_side_soft_fault_control = 0x4
axi_firewall_offset mi_side_unblock_control = 0x8
axi_firewall_offset ip_version = 0x10
axi_firewall_offset si_side_fault_status = 0x100
axi_firewall_offset si_side_soft_fault_control = 0x104
axi_firewall_offset si_side_unblock_control = 0x108

module _ {E : Type 0} (c : BasedCtrlOps E) where
  unfoldable pub get_axi_firewall_reg : AxiFirewallReg → Exec (AxiFirewallError E) ℕ
  unfolding axi_firewall_offset
  get_axi_firewall_reg reg = map_err based_error (c.based_ctrl_read_u32 (axi_firewall_offset reg))

  unfoldable pub set_axi_firewall_reg : AxiFirewallReg → ℕ → Exec (AxiFirewallError E) Unit
  unfolding axi_firewall_offset
  set_axi_firewall_reg reg value =
      map_err based_error (c.based_ctrl_write_u32 (axi_firewall_offset reg) value)

  unfoldable pub get_mi_fault_status : Exec (AxiFirewallError E) ℕ
  unfolding get_axi_firewall_reg
  get_mi_fault_status = get_axi_firewall_reg mi_side_fault_status

  unfoldable pub mi_is_blocked : Exec (AxiFirewallError E) Bool
  unfolding get_mi_fault_status
  mi_is_blocked = do status ← get_mi_fault_status; pure (not (status == 0))

  unfoldable pub block_mi : Exec (AxiFirewallError E) Unit
  unfolding set_axi_firewall_reg
  block_mi = set_axi_firewall_reg mi_side_soft_fault_control mi_block_mask

  unfoldable pub unblock_mi : Exec (AxiFirewallError E) Unit
  unfolding set_axi_firewall_reg
  unblock_mi = do
    set_axi_firewall_reg mi_side_soft_fault_control 0
    set_axi_firewall_reg mi_side_unblock_control 1

  unfoldable pub get_ip_version : Exec (AxiFirewallError E) ℕ
  unfolding get_axi_firewall_reg
  get_ip_version = get_axi_firewall_reg ip_version
