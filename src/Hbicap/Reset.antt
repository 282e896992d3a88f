-- ===== src/Hbicap/Reset.antt =====
-- `reset` of sw/rust/warpshell/src/cores/hbicap.rs and the control register.
use warpshell.Base.{ℕ, List, ◌≡◌, refl, bit_or}
use warpshell.Base.Bits.{WithBit, bit_or-WithBit}
use warpshell.System.{Call}
use warpshell.Outcome.{ok, map_err}
use warpshell.Based.{BasedCtrlOps, BasedDmaOps}
use warpshell.Hbicap.{based_error, get_hbicap_reg, set_hbicap_reg, reset}

module _ {E : Type 0} (c : BasedCtrlOps E) (d : BasedDmaOps E) (v : ℕ) (calls : List Call) where
  -- If the control register reads as `v`, then a reset goes on to write to it exactly `v` with bits 2
  -- and 3 set and all other bits kept, and returns what that write returns.
  pub reset_lem :
      (c.based_ctrl_read_u32 0x10c calls).0 ≡ ok v
      → (u : ℕ) × (w : ℕ) × WithBit 2 v u
        × WithBit 3 u w
        × (reset c d calls
            ≡ map_err based_error
                (c.based_ctrl_write_u32 0x10c w)
                (c.based_ctrl_read_u32 0x10c calls).1)
  unfolding reset get_hbicap_reg set_hbicap_reg
  reset_lem h = (
    bit_or v 4,
    bit_or (bit_or v 4) 8,
    bit_or-WithBit 2 v,
    bit_or-WithBit 3 (bit_or v 4),
    rw h refl,
  )
