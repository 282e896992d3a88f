-- ===== src/Cms/Control.antt =====
-- The bits of the control register in sw/rust/warpshell/src/cores/cms.rs.
use warpshell.Base.{ℕ, List, ◌≡◌, refl, bit_or}
use warpshell.Base.Bits.{WithBit, bit_or-WithBit}
use warpshell.System.{Call}
use warpshell.Outcome.{ok, map_err}
use warpshell.Based.{BasedCtrlOps}
use warpshell.Cms.{
  based_error, get_cms_control_reg, set_cms_control_reg, get_cms_reg, set_cms_reg,
  enable_hbm_temp_monitoring, reset_sensor_max_avg,
}

module _ {E : Type 0} (c : BasedCtrlOps E) (v : ℕ) (calls : List Call) where
  abbrev after_read : List Call
  after_read = (c.based_ctrl_read_u32 0x2_8018 calls).1

  enable_hbm_temp_monitoring_lem :
      (c.based_ctrl_read_u32 0x2_8018 calls).0 ≡ ok v
      → (w : ℕ) × WithBit 27 v w
        × (enable_hbm_temp_monitoring c calls
            ≡ map_err based_error (c.based_ctrl_write_u32 0x2_8018 w) after_read)
  unfolding enable_hbm_temp_monitoring get_cms_control_reg set_cms_control_reg get_cms_reg
      set_cms_reg
  enable_hbm_temp_monitoring_lem h = (bit_or v 0x800_0000, bit_or-WithBit 27 v, rw h refl)

  reset_sensor_max_avg_lem :
      (c.based_ctrl_read_u32 0x2_8018 calls).0 ≡ ok v
      → (w : ℕ) × WithBit 0 v w
        × (reset_sensor_max_avg c calls
            ≡ map_err based_error (c.based_ctrl_write_u32 0x2_8018 w) after_read)
  unfolding reset_sensor_max_avg get_cms_control_reg set_cms_control_reg get_cms_reg set_cms_reg
  reset_sensor_max_avg_lem h = (bit_or v 1, bit_or-WithBit 0 v, rw h refl)

  -- If the control register reads as `v`, then enabling HBM temperature monitoring goes on to write to
  -- it exactly `v` with bit 27 set, and resetting the stored readings exactly `v` with bit 0 set, all
  -- other bits kept; and each returns what its write returns.
  pub set_cms_control_bits :
      (c.based_ctrl_read_u32 0x2_8018 calls).0 ≡ ok v
      → ((w : ℕ) × WithBit 27 v w
          × (enable_hbm_temp_monitoring c calls
              ≡ map_err based_error (c.based_ctrl_write_u32 0x2_8018 w) after_read))
        × ((w : ℕ) × WithBit 0 v w
            × (reset_sensor_max_avg c calls
                ≡ map_err based_error (c.based_ctrl_write_u32 0x2_8018 w) after_read))
  set_cms_control_bits h = (enable_hbm_temp_monitoring_lem h, reset_sensor_max_avg_lem h)
