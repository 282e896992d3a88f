-- ===== src/Tests/Cores.antt =====
-- Runs of the theorems on the polling, the channels and the smaller cores.
use warpshell.Base.{
  length, ℕ, ◌≤◌, ◌+◌, ◌*◌, ◌/◌, ◌%◌, ◌^◌, [], ◌∷◌, true, false, ◌≡◌, refl, arith, ap,
}
use warpshell.Base.Bytes.{
  words_to_bytes, u32, u64, to_le_bytes, from_le_bytes, from_le_bytes-to_le_bytes,
}
use warpshell.System.{read_exact_at, write_all_at}
use warpshell.Outcome.{ok, map_err, ◌>>◌}
use warpshell.Based.{
  BasedCtrlOps, BasedDmaOps, poll_reg_mask_sleep, position, thread_sleep, probe, is_expected,
}
use warpshell.Based.Storage.{ReadsWords, IsStorage}
use warpshell.Xdma.{CtrlChannel, DmaChannel, ctrl_ops, dma_ops}
use warpshell.Xdma.Transport.{polls, read_u32-write_u32}
use warpshell.DfxDecoupler.{is_enabled, enable, disable, based_error}
use warpshell.DfxDecoupler.Laws.{WithLowest, set_lowest, is_enabled_lem}
use warpshell.DmaBuffer.{Allocator, new, extend_from_slice, extend_words, read_into}
use warpshell.DmaBuffer.Filled.{Filled, Filled-new}
use warpshell.Cli.{power}
use warpshell.Cli.Power.{Reported, power_lem}
use warpshell.Hbicap.Abort.{shown, abort_lem}
use warpshell.Hbicap.Calls.{reg_write}
use warpshell.Hbicap.{
  abort, set_hbicap_reg, get_hbicap_reg, poll_abort_finished_every_10ms, write_programming,
  poll_done_every_10ms,
}
use warpshell.Hbicap.Bursts.{Ends, write_programming-Ends}
use warpshell.Hbicap.Packet.{
  new_type1, new_type2, type1_word, type2_word, opcode_code, config_logic_reg_code, write, cmd,
}
use warpshell.Hbicap.Packet.Fields.{word_fields}
use warpshell.Tests.Device.{card, memory, stored_bytes}

abbrev ctrl : CtrlChannel
ctrl = record { cdev = 0 }

abbrev dma : DmaChannel
dma = record { h2c_cdev = 1; c2h_cdev = 2 }

-- The idle bit of the test device, and a register that stays zero
abbrev c : BasedCtrlOps (Unit {0})
c = ctrl_ops card ctrl 0x0405_0000

abbrev d : BasedDmaOps (Unit {0})
d = dma_ops card dma 0x1000_0000_0000_0000

aborts : (abort c d true []).0 ≡ ok tt
unfolding abort set_hbicap_reg get_hbicap_reg ctrl_ops poll_done_every_10ms poll_reg_mask_sleep
    position thread_sleep probe is_expected poll_abort_finished_every_10ms from_le_bytes
aborts = refl

abort_example :
    (idle : ℕ) × (cleared : ℕ) × (idle ≤ 1000)
    × (cleared ≤ 1000)
    × ((abort c d true []).1
        ≡ polls card ctrl 0x0405_0000 cleared 0x10c 10_000_000 (
            shown card ctrl 0x0405_0000 dma 0x1000_0000_0000_0000 true (
              polls card ctrl 0x0405_0000 idle 0x110 10_000_000
                (reg_write card ctrl 0x0405_0000 dma 0x1000_0000_0000_0000 0x10c 16 ∷ []))))
abort_example = abort_lem card ctrl 0x0405_0000 dma 0x1000_0000_0000_0000 true [] aborts

read_u32-write_u32_example :
    ((ctrl_ops memory ctrl 64).based_ctrl_write_u32 8 0x1234_5678
        >> (ctrl_ops memory ctrl 64).based_ctrl_read_u32 8)
      []
    ≡ (
      ok 0x1234_5678,
      read_exact_at 0 4 (u64 (64 + 8))
          ∷ write_all_at 0 (to_le_bytes 0x1234_5678) (u64 (64 + 8))
          ∷ [],
    )
read_u32-write_u32_example =
    read_u32-write_u32 memory ctrl 64 8 0x1234_5678 [] (omega arith) refl refl

-- A register file of one word: the decoupler's control register, kept in the log
abbrev decoupler : BasedCtrlOps (Unit {0})
decoupler = ctrl_ops memory ctrl 0x0409_0000

reads_zero : (decoupler.based_ctrl_read_u32 0 []).0 ≡ ok 0
unfolding ctrl_ops from_le_bytes
reads_zero = refl

set_lowest_example :
    ((w : ℕ) × WithLowest 1 0 w
      × (enable decoupler []
          ≡ map_err based_error
              (decoupler.based_ctrl_write_u32 0 w)
              (decoupler.based_ctrl_read_u32 0 []).1))
    × ((w : ℕ) × WithLowest 0 0 w
        × (disable decoupler []
            ≡ map_err based_error
                (decoupler.based_ctrl_write_u32 0 w)
                (decoupler.based_ctrl_read_u32 0 []).1))
set_lowest_example = set_lowest decoupler 0 [] reads_zero

-- A control interface that keeps what is written, as words
abbrev registers : BasedCtrlOps (Unit {0})
registers = record {
  based_ctrl_read = λ len offset calls. (ok (stored_bytes len calls offset), calls);
  based_ctrl_write = λ bytes offset calls. (ok tt, write_all_at 0 bytes offset ∷ calls);
  based_ctrl_read_u32 = λ offset calls.
      (ok (u32 (from_le_bytes (stored_bytes 4 calls offset))), read_exact_at 0 4 offset ∷ calls);
  based_ctrl_write_u32 = λ offset v calls. (ok tt, write_all_at 0 (to_le_bytes v) offset ∷ calls);
}

registers-ReadsWords : ReadsWords registers
registers-ReadsWords = record { is_word = λ offset v calls h. ground arith }

registers-IsStorage : IsStorage registers 0
registers-IsStorage = record {
  stored = λ v calls small h. ap ok (omega (arith, ap u32 (from_le_bytes-to_le_bytes v small)));
}

writes_enabled : (enable registers []).0 ≡ ok tt
unfolding enable
writes_enabled = refl

writes_disabled : (disable registers []).0 ≡ ok tt
unfolding disable
writes_disabled = refl

is_enabled_example :
    ((is_enabled registers (enable registers []).1).0 ≡ ok true)
    × ((is_enabled registers (disable registers []).1).0 ≡ ok false)
is_enabled_example =
    is_enabled_lem registers registers-ReadsWords registers-IsStorage [] [] writes_enabled
      writes_disabled

power_example : Reported {X = Unit} true 12000 1500 12000 20 [] (power true 12000 1500 12000 20 [])
power_example = power_lem true 12000 1500 12000 20 []

abbrev pages : Allocator
pages = record { with_capacity = λ n. n; grown = λ capacity len. len }

Filled-new_example :
    let with_image = extend_from_slice pages (new pages 5000) (1 ∷ 2 ∷ 3 ∷ []) in
    Filled (new pages 5000) with_image (1 ∷ 2 ∷ 3 ∷ [])
    × Filled (new pages 5000) (read_into with_image (4 ∷ 5 ∷ 6 ∷ [])) (4 ∷ 5 ∷ 6 ∷ [])
    × Filled
        (new pages (length {A = ℕ} (7 ∷ 8 ∷ []) * 4))
        (extend_words pages (new pages (length {A = ℕ} (7 ∷ 8 ∷ []) * 4)) (7 ∷ 8 ∷ []))
        (words_to_bytes (7 ∷ 8 ∷ []))
Filled-new_example =
    Filled-new pages 5000 (1 ∷ 2 ∷ 3 ∷ []) (4 ∷ 5 ∷ 6 ∷ []) (7 ∷ 8 ∷ []) (λ n. omega arith)
      (omega arith) refl

write_programming_example :
    Ends memory ctrl 0x0405_0000 d 3 []
      (write_programming (ctrl_ops memory ctrl 0x0405_0000) d (7 ∷ 8 ∷ 9 ∷ []) [])
write_programming_example = write_programming-Ends memory ctrl 0x0405_0000 d (7 ∷ 8 ∷ 9 ∷ []) []

word_fields_example :
    let v = type1_word (new_type1 write cmd 1) in
    let w = type2_word (new_type2 write 5000) in
    ((v / 2 ^ 29 ≡ 1)
      × (v / 2 ^ 27 % 4 ≡ opcode_code write)
      × (v / 2 ^ 13 % 2 ^ 14 ≡ config_logic_reg_code cmd)
      × (v / 2 ^ 11 % 4 ≡ 0)
      × (v % 2 ^ 11 ≡ 1 % 2 ^ 11))
    × ((w / 2 ^ 29 ≡ 2) × (w / 2 ^ 27 % 4 ≡ opcode_code write) × (w % 2 ^ 27 ≡ 5000 % 2 ^ 27))
word_fields_example = word_fields (new_type1 write cmd 1) (new_type2 write 5000)
