-- ===== src/Shell/Map.antt =====
-- The address map of sw/rust/warpshell/src/shells/xilinx_u55n_xdma_std.rs: the registers of the cores
-- that share the control channel.
use warpshell.Base.{ℕ, ◌+◌, ◌<◌, ◌≡◌, refl, sym, ap, ◌∙◌, arith, ltb, if◌then◌else◌}
use warpshell.Base.Bytes.{u64}
use warpshell.Cms.Reg.{CmsReg, microblaze_reset_n, cms_offset}
use warpshell.AxiFirewall.{AxiFirewallReg, mi_side_fault_status, axi_firewall_offset}
use warpshell.Hbicap.Packet.{HbicapReg, global_int_en, hbicap_offset}
use warpshell.DfxDecoupler.{DfxDecouplerReg, control, dfx_decoupler_offset}
use warpshell.Shell.Segments.{segment}
use warpshell.Shell.{
  Core, cms_core, ctrl_axi_firewall_core, dma_axi_firewall_core, hbicap_ctrl_if, dfx_decoupler_core,
  base_addr,
}

-- A register of a core on the control channel
pub data ShellReg : Type 0 where
  cms_reg : CmsReg → ShellReg
  ctrl_firewall_reg dma_firewall_reg : AxiFirewallReg → ShellReg
  hbicap_reg : HbicapReg → ShellReg
  decoupler_reg : DfxDecouplerReg → ShellReg

abbrev pub core : ShellReg → Core
core (cms_reg r) = cms_core
core (ctrl_firewall_reg r) = ctrl_axi_firewall_core
core (dma_firewall_reg r) = dma_axi_firewall_core
core (hbicap_reg r) = hbicap_ctrl_if
core (decoupler_reg r) = dfx_decoupler_core

abbrev pub offset : ShellReg → ℕ
offset (cms_reg r) = cms_offset r
offset (ctrl_firewall_reg r) = axi_firewall_offset r
offset (dma_firewall_reg r) = axi_firewall_offset r
offset (hbicap_reg r) = hbicap_offset r
offset (decoupler_reg r) = dfx_decoupler_offset r

-- Where an access to the register goes
abbrev pub address : ShellReg → ℕ
address r = u64 (base_addr (core r) + offset r)

cms_offset-lt : (r : CmsReg) → cms_offset r < 0x4_0000
unfolding cms_offset
cms_offset-lt microblaze_reset_n = omega arith
cms_offset-lt _ = omega arith

axi_firewall_offset-lt : (r : AxiFirewallReg) → axi_firewall_offset r < 0x1_0000
unfolding axi_firewall_offset
axi_firewall_offset-lt mi_side_fault_status = omega arith
axi_firewall_offset-lt _ = omega arith

hbicap_offset-lt : (r : HbicapReg) → hbicap_offset r < 0x1_0000
unfolding hbicap_offset
hbicap_offset-lt global_int_en = omega arith
hbicap_offset-lt _ = omega arith

-- The core whose window an address is in
core_at : ℕ → Core
core_at a =
    if ltb a 0x0405_0000
    then cms_core
    else (if ltb a 0x0406_0000
        then hbicap_ctrl_if
        else (if ltb a 0x0408_0000
            then ctrl_axi_firewall_core
            else (if ltb a 0x0409_0000 then dma_axi_firewall_core else dfx_decoupler_core)))

core_at-address : (r : ShellReg) → core_at (address r) ≡ core r
unfolding core_at base_addr dfx_decoupler_offset
core_at-address (cms_reg r) = let lt = cms_offset-lt r in ground arith
core_at-address (ctrl_firewall_reg r) = let lt = axi_firewall_offset-lt r in ground arith
core_at-address (dma_firewall_reg r) = let lt = axi_firewall_offset-lt r in ground arith
core_at-address (hbicap_reg r) = let lt = hbicap_offset-lt r in ground arith
core_at-address (decoupler_reg control) = refl

-- No sum of a base address and an offset wraps round.
address-exact : (r : ShellReg) → address r ≡ base_addr (core r) + offset r
unfolding base_addr dfx_decoupler_offset
address-exact (cms_reg r) = omega (arith, cms_offset-lt r)
address-exact (ctrl_firewall_reg r) = omega (arith, axi_firewall_offset-lt r)
address-exact (dma_firewall_reg r) = omega (arith, axi_firewall_offset-lt r)
address-exact (hbicap_reg r) = omega (arith, hbicap_offset-lt r)
address-exact (decoupler_reg control) = refl

-- An access to the register goes into the segment that the hardware has for the core, at the register's
-- offset there, and no sum on the way wraps round.
pub record InSegment (r : ShellReg) : Type 0 where
  pub exact : address r ≡ base_addr (core r) + offset r
  pub placed : address r ≡ (segment (core r)).start + offset r
  pub inside : offset r < (segment (core r)).range

address-InSegment : (r : ShellReg) → InSegment r
unfolding base_addr segment dfx_decoupler_offset
address-InSegment (cms_reg r) = record {
  exact = address-exact (cms_reg r);
  placed = address-exact (cms_reg r);
  inside = omega (arith, cms_offset-lt r);
}
address-InSegment (ctrl_firewall_reg r) = record {
  exact = address-exact (ctrl_firewall_reg r);
  placed = address-exact (ctrl_firewall_reg r);
  inside = omega (arith, axi_firewall_offset-lt r);
}
address-InSegment (dma_firewall_reg r) = record {
  exact = address-exact (dma_firewall_reg r);
  placed = address-exact (dma_firewall_reg r);
  inside = omega (arith, axi_firewall_offset-lt r);
}
address-InSegment (hbicap_reg r) = record {
  exact = address-exact (hbicap_reg r);
  placed = address-exact (hbicap_reg r);
  inside = omega (arith, hbicap_offset-lt r);
}
address-InSegment (decoupler_reg control) = record {
  exact = refl;
  placed = refl;
  inside = omega arith;
}

-- Two registers of cores on the control channel that are accessed at one address belong to one
-- core and have one offset there; and the address of a register is the sum of its core's base
-- address and its offset, which does not wrap round, and lies in the segment that the block design
-- of the hardware has for the core.
pub address-injective :
    (r s : ShellReg)
    → address r ≡ address s
    → (core r ≡ core s) × (offset r ≡ offset s) × InSegment r
address-injective r s e =
    let same : core r ≡ core s = sym (core_at-address r) ∙ ap core_at e ∙ core_at-address s in
    let base : base_addr (core r) ≡ base_addr (core s) = ap base_addr same in
    (same, omega (arith, e, base, address-exact r, address-exact s), address-InSegment r)
