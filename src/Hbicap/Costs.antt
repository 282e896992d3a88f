-- ===== src/Hbicap/Costs.antt =====
-- The system calls of the operations of sw/rust/warpshell/src/cores/hbicap.rs that programming uses.
use warpshell.Base.{ℕ, ◌/◌, List, Bool, if◌then◌else◌, length, arith}
use warpshell.Base.Bytes.{u32}
use warpshell.System.{Os}
use warpshell.Outcome.{ok, pure}
use warpshell.Outcome.Costs.{Costs, Costs-bind, Costs-if, Costs-map_err, Costs-none, Costs-le}
use warpshell.Based.{BasedCtrlOps, BasedDmaOps, poll_reg_mask_sleep}
use warpshell.Xdma.{CtrlChannel, DmaChannel, ctrl_ops, dma_ops}
use warpshell.Xdma.Costs.{Costs-read_u32, Costs-write_u32, Costs-poll, Costs-dma_write}
use warpshell.Hbicap.{
  based_error, get_hbicap_reg, set_hbicap_reg, write_bitstream, from_secs, poll_done_every_10ms,
  poll_abort_finished_every_10ms, abort,
}
use warpshell.Hbicap.Packet.{HbicapReg, hbicap_offset, size, control, abort_status}

module _ {E : Type 0} (os : Os E) (ch : CtrlChannel) (base : ℕ) (dma : DmaChannel)
    (dma_base : ℕ) where
  abbrev c : BasedCtrlOps E
  c = ctrl_ops os ch base

  abbrev d : BasedDmaOps E
  d = dma_ops os dma dma_base

  get-Costs : (reg : HbicapReg) → Costs 1 0 (get_hbicap_reg c d reg)
  unfolding get_hbicap_reg
  get-Costs reg =
      Costs-map_err based_error (c.based_ctrl_read_u32 (hbicap_offset reg))
        (Costs-read_u32 os ch base (hbicap_offset reg))

  set-Costs : (reg : HbicapReg) (value : ℕ) → Costs 1 0 (set_hbicap_reg c d reg value)
  unfolding set_hbicap_reg
  set-Costs reg value =
      Costs-map_err based_error (c.based_ctrl_write_u32 (hbicap_offset reg) value)
        (Costs-write_u32 os ch base (hbicap_offset reg) value)

  pub poll_done-Costs : Costs 2000 10_000_000_000 (poll_done_every_10ms c d (from_secs 10))
  unfolding poll_done_every_10ms
  poll_done-Costs =
      Costs-map_err based_error (poll_reg_mask_sleep c 0x110 1 1 1000 10_000_000)
        (Costs-poll os ch base 0x110 1 1 1000 10_000_000)

  poll_abort-Costs : Costs 2000 10_000_000_000 (poll_abort_finished_every_10ms c d (from_secs 10))
  unfolding poll_abort_finished_every_10ms
  poll_abort-Costs =
      Costs-map_err based_error (poll_reg_mask_sleep c 0x10c 16 0 1000 10_000_000)
        (Costs-poll os ch base 0x10c 16 0 1000 10_000_000)

  pub write_bitstream-Costs : (bytes : List ℕ) → Costs 2 0 (write_bitstream c d bytes)
  unfolding write_bitstream
  write_bitstream-Costs bytes =
      Costs-bind (set_hbicap_reg c d size (u32 (length bytes / 4))) _ (set-Costs size _) λ _.
        Costs-map_err based_error (d.based_dma_write bytes 0)
          (Costs-dma_write os dma dma_base bytes 0)

  log-Costs :
      (debug : Bool) (reg : HbicapReg)
      → Costs 1 0 (if debug then get_hbicap_reg c d reg else pure 0)
  log-Costs debug reg =
      Costs-if debug (get_hbicap_reg c d reg) (pure 0) (get-Costs reg)
        (Costs-le (pure 0) (omega arith) (omega arith) (Costs-none (ok 0)))

  pub abort-Costs : (debug : Bool) → Costs 4003 20_000_000_000 (abort c d debug)
  unfolding abort
  abort-Costs debug = Costs-bind (set_hbicap_reg c d control 16) _ (set-Costs control 16) λ _.
      Costs-bind (poll_done_every_10ms c d (from_secs 10)) _ poll_done-Costs λ _.
        Costs-bind (if debug then get_hbicap_reg c d abort_status else pure 0) _
          (log-Costs debug abort_status)
          λ _.
            Costs-bind (if debug then get_hbicap_reg c d control else pure 0) _
              (log-Costs debug control)
              λ _.
                Costs-bind (poll_abort_finished_every_10ms c d (from_secs 10)) _ poll_abort-Costs
                  λ _. Costs-none (ok tt)
