-- ===== src/Cms/Calm.antt =====
-- The operations of sw/rust/warpshell/src/cores/cms.rs that cannot panic, over the device file.
use warpshell.Base.{ℕ, Bool, true, false, ◌==◌, bit_or, if◌then◌else◌}
use warpshell.System.{Os}
use warpshell.Outcome.{Exec, Calm, Calm-bind, Calm-map_err, raise}
use warpshell.Based.{BasedCtrlOps, poll_reg_mask_sleep}
use warpshell.Xdma.{CtrlChannel, ctrl_ops}
use warpshell.Xdma.Transport.{Calm-read_u32, Calm-write_u32, Calm-poll}
use warpshell.Cms.{
  based_error, host_status_not_ready, unsupported_reg_map_id, get_cms_reg, set_cms_reg,
  get_cms_control_reg, set_cms_control_reg, expect_ready_host_status, get_reg_map_id,
  enable_hbm_temp_monitoring, init,
}
use warpshell.Cms.Reg.{CmsReg, microblaze_reset_n, control, reg_map_id, cms_offset}

Calm-guard :
    {X A : Type 0} (b : Bool) (m : Exec X A) (x : X) → Calm m → Calm (if b then m else raise x)
Calm-guard true m x calm = calm
Calm-guard false m x calm = λ s h. absurd (cc h)

module _ {E : Type 0} (os : Os E) (ch : CtrlChannel) (base : ℕ) where
  abbrev c : BasedCtrlOps E
  c = ctrl_ops os ch base

  pub Calm-get_cms_reg : (reg : CmsReg) → Calm (get_cms_reg c reg)
  unfolding get_cms_reg
  Calm-get_cms_reg reg =
      Calm-map_err based_error (c.based_ctrl_read_u32 (cms_offset reg))
        (Calm-read_u32 os ch base (cms_offset reg))

  Calm-set_cms_reg : (reg : CmsReg) (v : ℕ) → Calm (set_cms_reg c reg v)
  unfolding set_cms_reg
  Calm-set_cms_reg reg v =
      Calm-map_err based_error (c.based_ctrl_write_u32 (cms_offset reg) v)
        (Calm-write_u32 os ch base (cms_offset reg) v)

  Calm-expect_ready : (ms : ℕ) → Calm (expect_ready_host_status c ms)
  unfolding expect_ready_host_status
  Calm-expect_ready ms =
      Calm-map_err (λ _. host_status_not_ready) (poll_reg_mask_sleep c 0x2_830c 1 1 ms 1_000_000)
        (Calm-poll os ch base 0x2_830c 1 1 ms 1_000_000)

  Calm-enable : Calm (enable_hbm_temp_monitoring c)
  unfolding enable_hbm_temp_monitoring get_cms_control_reg set_cms_control_reg
  Calm-enable =
      Calm-bind (get_cms_control_reg c) _ (Calm-get_cms_reg control)
        λ v. Calm-set_cms_reg control (bit_or v 0x800_0000)

  pub Calm-init : Calm (init c)
  unfolding init get_reg_map_id
  Calm-init =
      Calm-bind (set_cms_reg c microblaze_reset_n 1) _ (Calm-set_cms_reg microblaze_reset_n 1) λ _.
        Calm-bind (expect_ready_host_status c 1000) _ (Calm-expect_ready 1000) λ _.
          Calm-bind (get_reg_map_id c) _ (Calm-get_cms_reg reg_map_id) λ v.
            Calm-guard (v == 0x7473_6574) (enable_hbm_temp_monitoring c) (unsupported_reg_map_id v)
              Calm-enable
