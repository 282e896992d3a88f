-- ===== src/Tests/Examples.antt =====
-- Runs of the theorems on the example programs, the texts and the mailbox loop.
use warpshell.Base.{
  ℕ, suc, ◌+◌, ◌*◌, ◌<◌, ◌≤◌, List, [], ◌∷◌, true, some, none, ◌≡◌, ◌⊎◌, refl, arith, length,
}
use warpshell.Base.Bytes.{u64, from_le_bytes}
use warpshell.Outcome.{ok, err}
use warpshell.Based.{
  BasedError, BasedCtrlOps, poll_reg_mask_sleep, position, thread_sleep, probe, is_expected,
}
use warpshell.Xdma.{
  CtrlChannel, ctrl_ops, dma_ops, ctrl_channel, dma_channel0, ctrl_get_or_init, dma_get_or_init,
}
use warpshell.Xdma.Transport.{ctrl_ops-Answers}
use warpshell.AxiFirewall.{ip_version, get_axi_firewall_reg}
use warpshell.Cms
use warpshell.Cms.{
  based_error, read_info, set_cms_reg, expect_ready_host_status, get_reg_map_id,
  enable_hbm_temp_monitoring,
}
use warpshell.Cms.Rounds.{word_reads, read_info_rounds}
use warpshell.Cms.Reg.{fw_version}
use warpshell.Cms.CardInfo.Text.{codes, mac_as_string}
use warpshell.Cms.CardInfo.Text.Mac.{read_octets, mac_as_string_lem}
use warpshell.Hbicap.{
  get_hbicap_reg, abort, poll_done_every_10ms, poll_abort_finished_every_10ms,
  config_logic_reg_readback, read_programming, write_bitstream, read_bitstream,
  poll_read_clear_every_10ms,
}
use warpshell.Hbicap.Packet.{status, stat}
use warpshell.Shell
use warpshell.Shell.{Statics, XilinxU55nXdmaStd, base_addr}
use warpshell.Cli
use warpshell.Cli.{get, card_info}
use warpshell.Examples.CardInfo as InfoExample
use warpshell.Examples.CardInfo.{main-get_card_info}
use warpshell.Examples.U55nRegs.{Registers, Report, main}
use warpshell.Examples.U55nRegs.Dumped.{Dumped, main-Dumped}
use warpshell.Examples.{expected}
use warpshell.Tests.Device.{card, build}

abbrev statics : Statics
statics = record { ctrl_cell = ctrl_channel; dma_cell = dma_channel0 }

main-get_card_info_example :
    let tool =
      Cli.main card build statics true
        (record { config = none; command = some (get card_info) })
        [] in
    InfoExample.main card statics [] ≡ (expected tool.0, tool.1)
main-get_card_info_example = main-get_card_info card build statics true []

mac_text : mac_as_string (0x00 ∷ 0x0a ∷ 0x35 ∷ 0x05 ∷ 0x0f ∷ 0xd8 ∷ []) ≡ codes "00:0a:35:05:0f:d8"
unfolding mac_as_string
mac_text = refl

mac_as_string_example :
    (length (mac_as_string (0x0a ∷ 0x35 ∷ [])) ≡ 2 + 3 * length {A = ℕ} (0x35 ∷ []))
    × (read_octets (mac_as_string (0x0a ∷ 0x35 ∷ [])) ≡ some (0x0a ∷ 0x35 ∷ []))
mac_as_string_example = mac_as_string_lem 0x0a (0x35 ∷ []) (omega arith, (omega arith, tt))

abbrev ch : CtrlChannel
ch = record { cdev = 0 }

abbrev cms : BasedCtrlOps (Unit {0})
cms = ctrl_ops card ch 0x0400_0000

read_info_rounds_example :
    let run = read_info cms 2 0x2_9000 [] 4 6 [] in
    (k : ℕ) × (4 * k < 6 + 4)
    × (run.1 ≡ word_reads cms (ctrl_ops-Answers card ch 0x0400_0000) 0x2_9000 k 4 [])
    × (((bytes : List ℕ) × (run.0 ≡ ok bytes)
          × (6 ≤ 4 * k)
          × (length bytes ≡ length {A = ℕ} [] + 6))
        ⊎ ((j : ℕ) × (x : BasedError (Unit {0})) × (k ≡ suc j)
            × ((cms.based_ctrl_read_u32
                  (u64 (0x2_9000 + (4 + 4 * j)))
                  (word_reads cms (ctrl_ops-Answers card ch 0x0400_0000) 0x2_9000 j 4 [])).0
                ≡ err x)
            × (run.0 ≡ err (based_error x))))
read_info_rounds_example =
    read_info_rounds cms (ctrl_ops-Answers card ch 0x0400_0000) 0x2_9000 2 4 6 [] [] (omega arith)

abbrev some_registers : Registers
some_registers = record {
  cms = fw_version ∷ [];
  axi_firewall = ip_version ∷ [];
  hbicap = status ∷ [];
  config_logic = stat ∷ [];
}

abbrev report : Report
report = record {
  cms = (fw_version, 0) ∷ [];
  ctrl_axi_firewall = (ip_version, 0) ∷ [];
  dma_axi_firewall = (ip_version, 0) ∷ [];
  hbicap = (status, 1) ∷ [];
  config_logic = (stat, 0x1234_5678) ∷ [];
}

runs : (main card some_registers statics true []).0 ≡ ok report
unfolding main ctrl_get_or_init dma_get_or_init Shell.new Shell.init ctrl_ops dma_ops from_le_bytes
    poll_reg_mask_sleep position thread_sleep probe is_expected Cms.init set_cms_reg
    expect_ready_host_status base_addr get_reg_map_id enable_hbm_temp_monitoring
    get_axi_firewall_reg get_hbicap_reg abort poll_done_every_10ms poll_abort_finished_every_10ms
    config_logic_reg_readback read_programming write_bitstream read_bitstream
    poll_read_clear_every_10ms
runs = refl

main-Dumped_example :
    let connected = Shell.new card statics [] in
    (sh : XilinxU55nXdmaStd) × (connected.0 ≡ ok sh)
    × Dumped card sh some_registers true report connected.2
        (main card some_registers statics true []).1
main-Dumped_example = main-Dumped card some_registers statics true [] runs
