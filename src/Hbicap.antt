-- ===== src/Hbicap.antt =====
-- sw/rust/warpshell/src/cores/hbicap.rs: the trait `HbicapOps`, over any control and DMA interface. A
-- `DmaBuffer` enters by its bytes; `DmaBuffer.antt` is about its memory. Durations are in
-- nanoseconds. The arguments of `debug!` are computed only if the logger is on: `debug`.
pub mod Packet
pub mod Bursts
pub mod Calls
pub mod Costs
pub mod Readback
pub mod Abort
pub mod Reset
use warpshell.Base.{
  ℕ, zero, suc, ◌+◌, ◌-◌, ◌*◌, ◌/◌, ◌^◌, min, List, [], ◌∷◌, ◌++◌, Bool, true, false, bit_and,
  bit_or, ◌==◌, ltb, if◌then◌else◌, length, take,
}
use warpshell.Base.Bytes.{u32, words_to_bytes, from_le_bytes}
use warpshell.Outcome.{Exec, ◌>>=◌, ◌>>◌, pure, panics, map_err}
use warpshell.Based.{BasedError, BasedCtrlOps, BasedDmaOps, poll_reg_mask_sleep}
use Packet.{
  max_burst_size, icap_word_bytes, dummy_cmd, bus_width_sync_cmd, bus_width_detect_cmd, sync_cmd,
  HbicapReg, size, control, status, abort_status, hbicap_offset, ControlRegBit, fifo_clear,
  sw_reset, control_reg_bit, idle, status_reg_bit, Opcode, write, ConfigLogicReg, cmd, desync,
  cmd_reg_code, new_type1, noop_packet, type1_word,
}

pub data HbicapError (E : Type 0) : Type 0 where
  based_error : BasedError E → HbicapError E

-- `Duration::from_secs` and `Duration::from_millis`
abbrev pub from_secs : ℕ → ℕ
from_secs s = s * 1_000_000_000

abbrev pub from_millis : ℕ → ℕ
from_millis ms = ms * 1_000_000

-- `usize::try_from(duration.as_nanos() / period.as_nanos()).unwrap_or_default()`
unfoldable pub n_polls : ℕ → ℕ → ℕ
n_polls duration period = let q = duration / period in if ltb q (2 ^ 64) then q else 0

-- The commands before and after the readback of a register
unfoldable pub readback_opening : ConfigLogicReg → List ℕ
unfolding type1_word
readback_opening reg =
    dummy_cmd
    ∷ bus_width_sync_cmd
    ∷ bus_width_detect_cmd
    ∷ dummy_cmd
    ∷ sync_cmd
    ∷ type1_word noop_packet
    ∷ type1_word (new_type1 Opcode.read reg 1)
    ∷ type1_word noop_packet
    ∷ type1_word noop_packet
    ∷ []

unfoldable pub readback_closing : List ℕ
unfolding type1_word cmd_reg_code
readback_closing =
    type1_word (new_type1 write cmd 1)
    ∷ cmd_reg_code desync
    ∷ type1_word noop_packet
    ∷ type1_word noop_packet
    ∷ []

module _ {E : Type 0} (c : BasedCtrlOps E) (d : BasedDmaOps E) where
  unfoldable pub get_hbicap_reg : HbicapReg → Exec (HbicapError E) ℕ
  unfolding hbicap_offset
  get_hbicap_reg reg = map_err based_error (c.based_ctrl_read_u32 (hbicap_offset reg))

  unfoldable pub set_hbicap_reg : HbicapReg → ℕ → Exec (HbicapError E) Unit
  unfolding hbicap_offset
  set_hbicap_reg reg value = map_err based_error (c.based_ctrl_write_u32 (hbicap_offset reg) value)

  unfoldable pub is_ready : Exec (HbicapError E) Bool
  unfolding get_hbicap_reg status_reg_bit
  is_ready = do
    v ← get_hbicap_reg status
    pure (bit_and v (status_reg_bit idle) == status_reg_bit idle)

  unfoldable pub reset : Exec (HbicapError E) Unit
  unfolding get_hbicap_reg set_hbicap_reg control_reg_bit
  reset = do
    v ← get_hbicap_reg control
    set_hbicap_reg control
        (bit_or (bit_or v (control_reg_bit fifo_clear)) (control_reg_bit sw_reset))

  unfoldable pub write_bitstream : List ℕ → Exec (HbicapError E) Unit
  unfolding set_hbicap_reg
  write_bitstream buf = do
    set_hbicap_reg size (u32 (length buf / icap_word_bytes))
    map_err based_error (d.based_dma_write buf 0)

  -- Given the length of the buffer, returns what fills it.
  unfoldable pub read_bitstream : ℕ → Exec (HbicapError E) (List ℕ)
  unfolding set_hbicap_reg control_reg_bit
  read_bitstream len = do
    set_hbicap_reg size (u32 (len / icap_word_bytes))
    set_hbicap_reg control (control_reg_bit ControlRegBit.read)
    map_err based_error (d.based_dma_read len 0)

  unfoldable pub poll_done_every_10ms : ℕ → Exec (HbicapError E) ℕ
  unfolding hbicap_offset status_reg_bit n_polls
  poll_done_every_10ms duration = map_err based_error (
      poll_reg_mask_sleep c (hbicap_offset status) (status_reg_bit idle) (status_reg_bit idle)
        (n_polls duration (from_millis 10)) (from_millis 10))

  unfoldable pub poll_read_clear_every_10ms : ℕ → Exec (HbicapError E) ℕ
  unfolding hbicap_offset control_reg_bit n_polls
  poll_read_clear_every_10ms duration = map_err based_error (
      poll_reg_mask_sleep c (hbicap_offset control) (control_reg_bit ControlRegBit.read) 0
        (n_polls duration (from_millis 10)) (from_millis 10))

  unfoldable pub poll_abort_finished_every_10ms : ℕ → Exec (HbicapError E) ℕ
  unfolding hbicap_offset control_reg_bit n_polls
  poll_abort_finished_every_10ms duration = map_err based_error (
      poll_reg_mask_sleep c (hbicap_offset control) (control_reg_bit ControlRegBit.abort) 0
        (n_polls duration (from_millis 10)) (from_millis 10))

  -- Given the length of `output`, returns what fills it.
  unfoldable pub read_programming : List ℕ → List ℕ → ℕ → Exec (HbicapError E) (List ℕ)
  read_programming opening closing len = do
    write_bitstream (words_to_bytes opening)
    poll_done_every_10ms (from_secs 10)
    output ← read_bitstream len
    poll_read_clear_every_10ms (from_secs 10)
    write_bitstream (words_to_bytes closing)
    poll_done_every_10ms (from_secs 10)
    pure output

  unfoldable pub config_logic_reg_readback : ConfigLogicReg → Exec (HbicapError E) ℕ
  unfolding readback_opening readback_closing from_le_bytes
  config_logic_reg_readback reg = do
    read_buf ← read_programming (readback_opening reg) readback_closing icap_word_bytes
    pure (from_le_bytes (take 4 read_buf))

  -- The `while len > 0` of `write_programming` and the `todo!()` behind it. With fuel `len` the loop
  -- has ended where the fuel has.
  unfoldable pub write_bursts : ℕ → ℕ → Exec (HbicapError E) Unit
  unfolding set_hbicap_reg
  write_bursts zero len = panics
  write_bursts (suc fuel) len = elim (len == 0) [
    | true ↦ panics
    | false ↦ do
      set_hbicap_reg size (min max_burst_size len)
      write_bursts fuel (len - min max_burst_size len)
  ]

  unfoldable pub write_programming : List ℕ → Exec (HbicapError E) Unit
  unfolding write_bursts
  write_programming words = write_bursts (u32 (length words)) (u32 (length words))

  unfoldable pub abort : Bool → Exec (HbicapError E) Unit
  unfolding get_hbicap_reg set_hbicap_reg control_reg_bit
  abort debug = do
    set_hbicap_reg control (control_reg_bit ControlRegBit.abort)
    poll_done_every_10ms (from_secs 10)
    if debug then get_hbicap_reg abort_status else pure 0
    if debug then get_hbicap_reg control else pure 0
    poll_abort_finished_every_10ms (from_secs 10)
    pure tt
