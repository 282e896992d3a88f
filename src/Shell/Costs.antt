-- ===== src/Shell/Costs.antt =====
-- The system calls of sw/rust/warpshell/src/shells/xilinx_u55n_xdma_std.rs.
use warpshell.Base.{ℕ, ◌+◌, ◌≤◌, List, ◌∷◌, Bool, ◌≡◌, refl, arith, length, inl, inr}
use warpshell.System.{Call, open_read, create, IoResult-cases, Os}
use warpshell.Outcome.{Outcome, ok, err, panic, map_err, raise, panics}
use warpshell.Outcome.Costs.{slept, Costs, Costs-bind, Costs-map_err, Costs-none, Costs-le}
use warpshell.Based.{reg_mask_not_as_expected, xdma_error}
use warpshell.Xdma.{
  CtrlChannel, OnceCellCtrlChannel, OnceCellDmaChannel, ctrl_get_or_init, dma_get_or_init,
}
use warpshell.Xdma.Costs.{Costs-write_u32}
use warpshell.Xdma.Error.{XdmaError}
use warpshell.AxiFirewall
use warpshell.AxiFirewall.{
  block_mi, unblock_mi, set_axi_firewall_reg, axi_firewall_offset, AxiFirewallReg,
  mi_side_soft_fault_control, mi_side_unblock_control,
}
use warpshell.Cms
use warpshell.Cms.Costs
use warpshell.Hbicap.{
  HbicapError, based_error, write_bitstream, poll_done_every_10ms, from_secs, abort,
}
use warpshell.Hbicap.Costs.{poll_done-Costs, write_bitstream-Costs, abort-Costs}
use warpshell.Shell.{
  base_addr, Core, init, new, open_dma, XilinxU55nXdmaStd, Statics, program_user_image, make_idle,
  or_abort, cms, hbicap, axi_firewall, cms_core, ctrl_axi_firewall_core, dma_axi_firewall_core,
  hbicap_ctrl_if, hbicap_dma_if, on_ctrl, on_dma,
}

module _ {E : Type 0} (os : Os E) (sh : XilinxU55nXdmaStd) where
  pub init-Costs : Costs 2004 1_000_000_000 (init os sh)
  unfolding init
  init-Costs =
      Costs-map_err cms (Cms.init (on_ctrl os sh cms_core))
        (Cms.Costs.init-Costs os sh.ctrl_channel (base_addr cms_core))

  set-Costs :
      (core : Core) (reg : AxiFirewallReg) (value : ℕ)
      → Costs 1 0 (set_axi_firewall_reg (on_ctrl os sh core) reg value)
  unfolding set_axi_firewall_reg
  set-Costs core reg value =
      let write = (on_ctrl os sh core).based_ctrl_write_u32 (axi_firewall_offset reg) value in
      Costs-map_err AxiFirewall.based_error write
        (Costs-write_u32 os sh.ctrl_channel (base_addr core) (axi_firewall_offset reg) value)

  block-Costs : (core : Core) → Costs 1 0 (map_err axi_firewall (block_mi (on_ctrl os sh core)))
  unfolding block_mi
  block-Costs core =
      Costs-map_err axi_firewall (block_mi (on_ctrl os sh core))
        (set-Costs core mi_side_soft_fault_control 0x0100_0100)

  unblock-Costs : (core : Core) → Costs 2 0 (map_err axi_firewall (unblock_mi (on_ctrl os sh core)))
  unfolding unblock_mi
  unblock-Costs core = Costs-map_err axi_firewall (unblock_mi (on_ctrl os sh core)) (
      Costs-bind (set_axi_firewall_reg (on_ctrl os sh core) mi_side_soft_fault_control 0) _
        (set-Costs core mi_side_soft_fault_control 0) λ _. set-Costs core mi_side_unblock_control 1)

  or_abort-Costs :
      (debug : Bool) (r : Outcome (HbicapError E) ℕ)
      → Costs 4003 20_000_000_000 (or_abort os sh debug r)
  unfolding or_abort
  or_abort-Costs debug (ok tries) =
      Costs-le (or_abort os sh debug (ok tries)) (omega arith) (omega arith) (Costs-none (ok tt))
  or_abort-Costs debug (err (based_error (reg_mask_not_as_expected offset mask expected))) =
      Costs-map_err hbicap (abort (on_ctrl os sh hbicap_ctrl_if) (on_dma os sh hbicap_dma_if) debug)
        (abort-Costs os sh.ctrl_channel (base_addr hbicap_ctrl_if) sh.dma_channel
          (base_addr hbicap_dma_if) debug)
  or_abort-Costs debug (err (based_error (xdma_error x))) =
      Costs-le (raise (hbicap (based_error (xdma_error x)))) (omega arith) (omega arith)
        (Costs-none (err (hbicap (based_error (xdma_error x)))))
  or_abort-Costs debug panic = Costs-le panics (omega arith) (omega arith) (Costs-none panic)

  icap-Costs : Costs 2000 10_000_000_000 (
      poll_done_every_10ms
        (on_ctrl os sh hbicap_ctrl_if)
        (on_dma os sh hbicap_dma_if)
        (from_secs 10))
  icap-Costs =
      poll_done-Costs os sh.ctrl_channel (base_addr hbicap_ctrl_if) sh.dma_channel
        (base_addr hbicap_dma_if)

  make_idle-Costs : (debug : Bool) → Costs 6003 30_000_000_000 (make_idle os sh debug)
  unfolding make_idle
  make_idle-Costs debug =
      let poll =
        poll_done_every_10ms (on_ctrl os sh hbicap_ctrl_if) (on_dma os sh hbicap_dma_if)
          (from_secs 10) in
      record {
        calls = λ s.
            omega (arith, icap-Costs.calls s, (or_abort-Costs debug (poll s).0).calls (poll s).1);
        time = λ s.
            omega (arith, icap-Costs.time s, (or_abort-Costs debug (poll s).0).time (poll s).1);
      }

  pub program_user_image-Costs :
      (debug : Bool) (image : List ℕ)
      → Costs 8011 40_000_000_000 (program_user_image os sh debug image)
  unfolding program_user_image
  program_user_image-Costs debug image =
      let c = on_ctrl os sh hbicap_ctrl_if in
      let d = on_dma os sh hbicap_dma_if in
      let write_costs =
        write_bitstream-Costs os sh.ctrl_channel (base_addr hbicap_ctrl_if) sh.dma_channel
          (base_addr hbicap_dma_if) image in
      Costs-bind (make_idle os sh debug) _ (make_idle-Costs debug) λ _.
        Costs-bind (map_err axi_firewall (block_mi (on_ctrl os sh ctrl_axi_firewall_core))) _
          (block-Costs ctrl_axi_firewall_core)
          λ _.
            Costs-bind (map_err axi_firewall (block_mi (on_ctrl os sh dma_axi_firewall_core))) _
              (block-Costs dma_axi_firewall_core)
              λ _.
                Costs-bind (map_err hbicap (write_bitstream c d image)) _
                  (Costs-map_err hbicap (write_bitstream c d image) write_costs)
                  λ _.
                    Costs-bind (map_err hbicap (poll_done_every_10ms c d (from_secs 10))) _
                      (Costs-map_err hbicap (poll_done_every_10ms c d (from_secs 10)) icap-Costs)
                      λ _.
                        Costs-bind
                          (map_err axi_firewall (unblock_mi (on_ctrl os sh dma_axi_firewall_core)))
                          _ (unblock-Costs dma_axi_firewall_core)
                          λ _. unblock-Costs ctrl_axi_firewall_core

module _ {E : Type 0} (os : Os E) where
  dma_costs :
      (cell : OnceCellDmaChannel) (calls : List Call)
      → (length (dma_get_or_init os cell calls).2 ≤ length calls + 2)
        × (slept (dma_get_or_init os cell calls).2 ≡ slept calls)
  unfolding dma_get_or_init
  dma_costs cell calls = elim (IoResult-cases (os.opened calls (create cell.h2c_cdev_path))) [
    | inl (f, e) ↦
        elim (IoResult-cases
          (os.opened (create cell.h2c_cdev_path ∷ calls) (open_read cell.c2h_cdev_path))) [
            | inl (g, k) ↦ rw (e, k) (omega arith, refl)
            | inr (x, k) ↦ rw (e, k) (omega arith, refl)
          ]
    | inr (x, e) ↦ rw e (omega arith, refl)
  ]

  open_dma_costs :
      (s : Statics) (r : Outcome (XdmaError E) CtrlChannel) (cell : OnceCellCtrlChannel)
      (log : List Call)
      → (length (open_dma os s (r, cell, log)).2 ≤ length log + 2)
        × (slept (open_dma os s (r, cell, log)).2 ≡ slept log)
  open_dma_costs s (ok ch) cell log = dma_costs s.dma_cell log
  open_dma_costs s (err e) cell log = (omega arith, refl)
  open_dma_costs s panic cell log = (omega arith, refl)

  -- `new` opens at most three files.
  pub new_costs :
      (s : Statics) (calls : List Call)
      → (length (new os s calls).2 ≤ length calls + 3) × (slept (new os s calls).2 ≡ slept calls)
  unfolding new ctrl_get_or_init
  new_costs s calls =
      let r = ctrl_get_or_init os s.ctrl_cell calls in
      let (few, awake) = open_dma_costs s r.0 r.1 r.2 in (omega (arith, few), awake)
