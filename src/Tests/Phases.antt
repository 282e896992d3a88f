-- ===== src/Tests/Phases.antt =====
-- Runs of the theorems on the phases of programming, on threads, and on devices that answer.
use warpshell.Base.{ℕ, List, [], true, ◌≡◌, ◌≢◌, ◌⊎◌, refl, arith}
use warpshell.Base.Bytes.{from_le_bytes}
use warpshell.Base.Bits.{WithBit}
use warpshell.Outcome.{ok, err, map_err}
use warpshell.Based.{BasedCtrlOps, thread_sleep, probe, is_expected}
use warpshell.Xdma.{CtrlChannel, ctrl_ops, dma_ops}
use warpshell.Shell.{XilinxU55nXdmaStd, program_user_image, base_addr}
use warpshell.System.{Call}
use warpshell.Shell.Phases
use warpshell.Shell.Phases.{Phase}
use warpshell.Shell.Phases.Run.{Ends, Runs, program_user_image-Runs}
use warpshell.Shell.Phases.Firewalls.{Isolation, program_user_image-Isolation}
use warpshell.Shell.Phases.Live.{Obliging, program_user_image-Obliging}
use warpshell.Cms.{
  based_error, init, unsupported_reg_map_id, enable_hbm_temp_monitoring, reset_sensor_max_avg,
}
use warpshell.Cms.Live.{Ready, init-Ready}
use warpshell.Cms.Control.{set_cms_control_bits}
use warpshell.Hbicap.{HbicapError, reset}
use warpshell.Hbicap.Reset.{reset_lem}
use warpshell.Tests.Device.{card, sh, image}

program_user_image-Runs_example :
    Runs card sh true image [] (program_user_image card sh true image [])
program_user_image-Runs_example = program_user_image-Runs card sh true image []

program_user_image-Isolation_example :
    let run = program_user_image card sh true image [] in
    (p : Phase) × (log : List Call) × Phases.Reach card sh true image [] p log
    × Ends card sh true image [] p log run
    × Isolation card sh p run.1
program_user_image-Isolation_example = program_user_image-Isolation card sh true image []

pub card-Obliging : (shell : XilinxU55nXdmaStd) → Obliging card shell true
unfolding ctrl_ops from_le_bytes probe is_expected thread_sleep base_addr
card-Obliging shell = record {
  accepts = λ log file bytes address. refl;
  settles = λ log. (0, omega arith, refl);
}

program_user_image-Obliging_example : (program_user_image card sh true image []).0 ≡ ok tt
program_user_image-Obliging_example =
    program_user_image-Obliging card sh true (card-Obliging sh) image []

abbrev ch : CtrlChannel
ch = record { cdev = 0 }

pub card-Ready : (channel : CtrlChannel) → Ready card channel 0x0400_0000 0x7473_6574
unfolding ctrl_ops from_le_bytes probe is_expected thread_sleep
card-Ready channel = record {
  accepts = λ log offset value. refl;
  settles = λ log. (0, omega arith, refl);
  identified = λ log. refl;
  controlled = λ log. (0, refl);
}

abbrev id : ℕ
id = 0x7473_6574

init-Ready_example :
    let c = ctrl_ops card ch 0x0400_0000 in
    ((id ≡ 0x7473_6574) × ((init c []).0 ≡ ok tt))
    ⊎ ((id ≢ 0x7473_6574) × ((init c []).0 ≡ err (unsupported_reg_map_id id)))
init-Ready_example = init-Ready card ch 0x0400_0000 0x7473_6574 (card-Ready ch) []

-- The CMS core and the HBICAP core of the test device, whose control registers are 0
abbrev cms : BasedCtrlOps (Unit {0})
cms = ctrl_ops card ch 0x0400_0000

abbrev icap : BasedCtrlOps (Unit {0})
icap = ctrl_ops card ch 0x0405_0000

cms_zero : (cms.based_ctrl_read_u32 0x2_8018 []).0 ≡ ok 0
unfolding ctrl_ops from_le_bytes
cms_zero = refl

icap_zero : (icap.based_ctrl_read_u32 0x10c []).0 ≡ ok 0
unfolding ctrl_ops from_le_bytes
icap_zero = refl

set_cms_control_bits_example :
    ((w : ℕ) × WithBit 27 0 w
      × (enable_hbm_temp_monitoring cms []
          ≡ map_err based_error
              (cms.based_ctrl_write_u32 0x2_8018 w)
              (cms.based_ctrl_read_u32 0x2_8018 []).1))
    × ((w : ℕ) × WithBit 0 0 w
        × (reset_sensor_max_avg cms []
            ≡ map_err based_error
                (cms.based_ctrl_write_u32 0x2_8018 w)
                (cms.based_ctrl_read_u32 0x2_8018 []).1))
set_cms_control_bits_example = set_cms_control_bits cms 0 [] cms_zero

reset_example :
    (u : ℕ) × (w : ℕ) × WithBit 2 0 u
    × WithBit 3 u w
    × (reset icap (dma_ops card (record { h2c_cdev = 1; c2h_cdev = 2 }) 0x1000_0000_0000_0000) []
        ≡ map_err HbicapError.based_error
            (icap.based_ctrl_write_u32 0x10c w)
            (icap.based_ctrl_read_u32 0x10c []).1)
reset_example =
    reset_lem icap (dma_ops card (record { h2c_cdev = 1; c2h_cdev = 2 }) 0x1000_0000_0000_0000) 0 []
      icap_zero
