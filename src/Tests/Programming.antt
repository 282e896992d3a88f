-- ===== src/Tests/Programming.antt =====
-- Programming, initialisation and card information on the test device.
use warpshell.Base.{ℕ, ◌≤◌, ◌<◌, suc, [], true, ◌≡◌, ◌≢◌, ◌⊎◌, refl, arith}
use warpshell.Base.Bytes.{from_le_bytes}
use warpshell.Outcome.{ok, map_err}
use warpshell.Based.{position, thread_sleep, probe, is_expected, poll_reg_mask_sleep}
use warpshell.Based.Poll.Search.{after, answer, Misses}
use warpshell.Xdma.{ctrl_ops, dma_ops, ctrl_channel, dma_channel0}
use warpshell.AxiFirewall.{block_mi, unblock_mi}
use warpshell.Hbicap.{poll_done_every_10ms, write_bitstream, abort}
use warpshell.Shell.{
  Statics, program_user_image, make_idle, on_ctrl, on_dma, hbicap_ctrl_if, hbicap_dma_if, hbicap,
  base_addr,
}
use warpshell.Shell.Quiet.{unblocks}
use warpshell.Shell.Program.{Programmed, unblocks_only_when_Programmed}
use warpshell.Shell.Sequence.{Sequence, program_user_image-Sequence}
use warpshell.Shell.Idle.{look, make_idle_lem}
use warpshell.Shell.Map.{core, offset, decoupler_reg, InSegment, address-injective}
use warpshell.DfxDecoupler
use warpshell.Tests.Device.{card, sh, image}

run_succeeds : (program_user_image card sh true image []).0 ≡ ok tt
unfolding program_user_image make_idle poll_done_every_10ms poll_reg_mask_sleep position
    thread_sleep probe is_expected ctrl_ops from_le_bytes base_addr block_mi write_bitstream dma_ops
    unblock_mi
run_succeeds = refl

program_user_image-Sequence_example :
    (tries : ℕ) × (tries ≤ 1000)
    × Sequence card sh image
        (make_idle card sh true []).1
        tries
        (program_user_image card sh true image []).1
program_user_image-Sequence_example = program_user_image-Sequence card sh true image [] run_succeeds

run_unblocks : unblocks 0 (program_user_image card sh true image []).1 ≢ unblocks 0 []
unfolding program_user_image make_idle poll_done_every_10ms poll_reg_mask_sleep position
    thread_sleep probe is_expected ctrl_ops from_le_bytes base_addr block_mi write_bitstream dma_ops
    unblock_mi unblocks
run_unblocks h = absurd (omega (arith, h))

unblocks_only_when_Programmed_example : Programmed card sh true image []
unblocks_only_when_Programmed_example =
    unblocks_only_when_Programmed card sh true image [] run_unblocks

make_idle_example :
    ((j : ℕ) × (j < 1000)
      × Misses (look card sh true) j []
      × (answer (look card sh true) j [] ≡ ok true)
      × (make_idle card sh true [] ≡ (ok tt, after (look card sh true) (suc j) [])))
    ⊎ (Misses (look card sh true) 1000 []
        × (make_idle card sh true []
            ≡ map_err hbicap
                (abort (on_ctrl card sh hbicap_ctrl_if) (on_dma card sh hbicap_dma_if) true)
                (after (look card sh true) 1000 [])))
make_idle_example = make_idle_lem card sh true []

abbrev statics : Statics
statics = record { ctrl_cell = ctrl_channel; dma_cell = dma_channel0 }

address-injective_example :
    (core (decoupler_reg DfxDecoupler.control) ≡ core (decoupler_reg DfxDecoupler.control))
    × (offset (decoupler_reg DfxDecoupler.control) ≡ offset (decoupler_reg DfxDecoupler.control))
    × InSegment (decoupler_reg DfxDecoupler.control)
address-injective_example =
    address-injective (decoupler_reg DfxDecoupler.control) (decoupler_reg DfxDecoupler.control) refl
