-- ===== src/Hbicap/Readback.antt =====
-- `read_programming` and `config_logic_reg_readback` of sw/rust/warpshell/src/cores/hbicap.rs, over
-- the device files.
use warpshell.Base.{ℕ, ◌≤◌, ◌/◌, List, ◌∷◌, ◌≡◌, sym, ap, subst, ◌∙◌, arith, take}
use warpshell.Base.Bytes.{u32, words_to_bytes, from_le_bytes}
use warpshell.System.{Call, Os}
use warpshell.Outcome.{ok, bind-ok_next}
use warpshell.Based.{BasedCtrlOps, BasedDmaOps}
use warpshell.Xdma.{CtrlChannel, DmaChannel, ctrl_ops, dma_ops}
use warpshell.Xdma.Transport.{polls}
use warpshell.Hbicap.{
  from_secs, write_bitstream, read_bitstream, poll_done_every_10ms, poll_read_clear_every_10ms,
  read_programming, config_logic_reg_readback, readback_opening, readback_closing,
}
use warpshell.Hbicap.Packet.{ConfigLogicReg}
use warpshell.Hbicap.Calls.{
  stream, fetch, reg_write, write_bitstream_calls, read_bitstream_calls, poll_done_calls,
  poll_read_clear_calls,
}

module _ {E : Type 0} (os : Os E) (ch : CtrlChannel) (base : ℕ) (dma : DmaChannel)
    (dma_base : ℕ) where
  abbrev c : BasedCtrlOps E
  c = ctrl_ops os ch base

  abbrev d : BasedDmaOps E
  d = dma_ops os dma dma_base

  -- A readback that succeeds, with the log before the words are fetched
  pub record Fetched (opening closing : List ℕ) (len : ℕ) (bytes : List ℕ) (calls log : List Call)
      : Type 0 where
    pub sent : ℕ
    pub cleared : ℕ
    pub closed : ℕ
    pub in_time : (sent ≤ 1000) × (cleared ≤ 1000) × (closed ≤ 1000)
    pub before : List Call
    pub opened :
        before
        ≡ polls os ch base sent 0x110 10_000_000
            (stream os ch base dma dma_base (words_to_bytes opening) calls)
    pub answered :
        (d.based_dma_read len 0 (
          reg_write os ch base dma dma_base 0x10c 2
          ∷ reg_write os ch base dma dma_base 0x108 (u32 (len / 4))
          ∷ before)).0
        ≡ ok bytes
    pub logged :
        log
        ≡ polls os ch base closed 0x110 10_000_000 (
            stream os ch base dma dma_base (words_to_bytes closing) (
              polls os ch base cleared 0x10c 10_000_000 (fetch os ch base dma dma_base len before)))

  read_programming-Fetched :
      (opening closing : List ℕ) (len : ℕ) (calls : List Call) {bytes : List ℕ}
      → (read_programming c d opening closing len calls).0 ≡ ok bytes
      → Fetched opening closing len bytes calls (read_programming c d opening closing len calls).1
  unfolding read_programming
  read_programming-Fetched opening closing len calls h =
      let (u₁, a₁, l₁, h₁) =
        bind-ok_next (write_bitstream c d (words_to_bytes opening)) _ calls h in
      let s₁ : List Call = (write_bitstream c d (words_to_bytes opening) calls).1 in
      let (u₂, a₂, l₂, h₂) = bind-ok_next (poll_done_every_10ms c d (from_secs 10)) _ s₁ h₁ in
      let s₂ : List Call = (poll_done_every_10ms c d (from_secs 10) s₁).1 in
      let (out, a₃, l₃, h₃) = bind-ok_next (read_bitstream c d len) _ s₂ h₂ in
      let s₃ : List Call = (read_bitstream c d len s₂).1 in
      let (u₄, a₄, l₄, h₄) = bind-ok_next (poll_read_clear_every_10ms c d (from_secs 10)) _ s₃ h₃ in
      let s₄ : List Call = (poll_read_clear_every_10ms c d (from_secs 10) s₃).1 in
      let (u₅, a₅, l₅, h₅) = bind-ok_next (write_bitstream c d (words_to_bytes closing)) _ s₄ h₄ in
      let s₅ : List Call = (write_bitstream c d (words_to_bytes closing) s₄).1 in
      let (u₆, a₆, l₆, h₆) = bind-ok_next (poll_done_every_10ms c d (from_secs 10)) _ s₅ h₅ in
      let (k₂, le₂, z₂) = poll_done_calls os ch base dma dma_base s₁ in
      let (k₄, le₄, z₄) = poll_read_clear_calls os ch base dma dma_base s₃ in
      let (k₆, le₆, z₆) = poll_done_calls os ch base dma dma_base s₅ in
      let z₁ = write_bitstream_calls os ch base dma dma_base (words_to_bytes opening) calls a₁ in
      let (z₃, got) = read_bitstream_calls os ch base dma dma_base len s₂ a₃ in
      let z₅ = write_bitstream_calls os ch base dma dma_base (words_to_bytes closing) s₄ a₅ in
      record {
        sent = k₂;
        cleared = k₄;
        closed = k₆;
        in_time = (le₂, le₄, le₆);
        before = s₂;
        opened = z₂ ∙ ap (polls os ch base k₂ 0x110 10_000_000) z₁;
        answered = got ∙ ground arith;
        logged = l₁ ∙ l₂ ∙ l₃ ∙ l₄ ∙ l₅ ∙ l₆ ∙ cc (z₆, z₅, z₄, z₃);
      }

  pub config_logic_reg_readback-Fetched :
      (reg : ConfigLogicReg) (calls : List Call) {v : ℕ}
      → (config_logic_reg_readback c d reg calls).0 ≡ ok v
      → (bytes : List ℕ) × Fetched
          (readback_opening reg)
          readback_closing
          4
          bytes
          calls
          (config_logic_reg_readback c d reg calls).1
        × (v ≡ from_le_bytes (take 4 bytes))
  unfolding config_logic_reg_readback
  config_logic_reg_readback-Fetched reg calls {v} h =
      let (bytes, got, log, value) =
        bind-ok_next (read_programming c d (readback_opening reg) readback_closing 4) _ calls h in
      let f = read_programming-Fetched (readback_opening reg) readback_closing 4 calls got in
      (
        bytes,
        subst (Fetched (readback_opening reg) readback_closing 4 bytes calls) (sym log) f,
        ground arith,
      )
