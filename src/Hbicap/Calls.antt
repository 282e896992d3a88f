-- ===== src/Hbicap/Calls.antt =====
-- The calls that the operations of sw/rust/warpshell/src/cores/hbicap.rs make over the device files.
use warpshell.Base.{ℕ, ◌+◌, ◌≤◌, ◌/◌, List, ◌∷◌, ◌≡◌, sym, ap, ◌∙◌, length}
use warpshell.Base.Bytes.{u32, u64, to_le_bytes}
use warpshell.System.{Call, read_exact_at, write_all_at, Os}
use warpshell.Outcome.{ok, bind-ok_next, map_err-ok}
use warpshell.Based.{BasedCtrlOps, BasedDmaOps}
use warpshell.Xdma.{CtrlChannel, DmaChannel, ctrl_ops, dma_ops}
use warpshell.Xdma.Transport.{polls, poll_calls, write_u32_calls}
use warpshell.Hbicap.{
  based_error, set_hbicap_reg, from_secs, write_bitstream, read_bitstream, poll_done_every_10ms,
  poll_read_clear_every_10ms,
}
use warpshell.Hbicap.Packet.{size, control}

module _ {E : Type 0} (os : Os E) (ch : CtrlChannel) (base : ℕ) (dma : DmaChannel)
    (dma_base : ℕ) where
  abbrev c : BasedCtrlOps E
  c = ctrl_ops os ch base

  abbrev d : BasedDmaOps E
  d = dma_ops os dma dma_base

  -- `value` written to the register at `offset`
  abbrev pub reg_write : ℕ → ℕ → Call
  reg_write offset value = write_all_at ch.cdev (to_le_bytes value) (u64 (base + offset))

  -- The size register set to the whole words of `bytes`, then one DMA transfer
  abbrev pub stream : List ℕ → List Call → List Call
  stream bytes calls =
      write_all_at dma.h2c_cdev bytes (u64 (dma_base + 0))
      ∷ reg_write 0x108 (u32 (length bytes / 4))
      ∷ calls

  pub write_bitstream_calls :
      (bytes : List ℕ) (calls : List Call)
      → (write_bitstream c d bytes calls).0 ≡ ok tt
      → (write_bitstream c d bytes calls).1 ≡ stream bytes calls
  unfolding write_bitstream set_hbicap_reg dma_ops
  write_bitstream_calls bytes calls h =
      let (u, one, log, two) =
        bind-ok_next (set_hbicap_reg c d size (u32 (length bytes / 4))) _ calls h in
      log
      ∙ ap (λ l. write_all_at dma.h2c_cdev bytes (u64 (dma_base + 0)) ∷ l)
          (write_u32_calls os ch base 0x108 _ calls)

  -- The size register set to the words asked for, the read bit set, then one DMA transfer
  abbrev pub fetch : ℕ → List Call → List Call
  fetch len calls =
      read_exact_at dma.c2h_cdev len (u64 (dma_base + 0))
      ∷ reg_write 0x10c 2
      ∷ reg_write 0x108 (u32 (len / 4))
      ∷ calls

  pub read_bitstream_calls :
      (len : ℕ) (calls : List Call) {bytes : List ℕ}
      → (read_bitstream c d len calls).0 ≡ ok bytes
      → ((read_bitstream c d len calls).1 ≡ fetch len calls)
        × ((d.based_dma_read len 0 (reg_write 0x10c 2 ∷ reg_write 0x108 (u32 (len / 4)) ∷ calls)).0
            ≡ ok bytes)
  unfolding read_bitstream set_hbicap_reg dma_ops
  read_bitstream_calls len calls h =
      let (u, one, l₁, h₁) = bind-ok_next (set_hbicap_reg c d size (u32 (len / 4))) _ calls h in
      let s₁ : List Call = (set_hbicap_reg c d size (u32 (len / 4)) calls).1 in
      let (v, two, l₂, h₂) = bind-ok_next (set_hbicap_reg c d control 2) _ s₁ h₁ in
      let s₂ : List Call = (set_hbicap_reg c d control 2 s₁).1 in
      let z : s₂ ≡ reg_write 0x10c 2 ∷ reg_write 0x108 (u32 (len / 4)) ∷ calls =
        write_u32_calls os ch base 0x10c 2 s₁
        ∙ ap (λ l. reg_write 0x10c 2 ∷ l) (write_u32_calls os ch base 0x108 _ calls) in
      (
        l₁ ∙ l₂ ∙ ap (λ l. read_exact_at dma.c2h_cdev len (u64 (dma_base + 0)) ∷ l) z,
        ap (λ l. (d.based_dma_read len 0 l).0) (sym z)
            ∙ map_err-ok based_error (d.based_dma_read len 0) s₂ h₂,
      )

  -- The poll makes at most 1000 tries on the register.
  pub poll_done_calls :
      (calls : List Call)
      → (tries : ℕ) × (tries ≤ 1000)
        × ((poll_done_every_10ms c d (from_secs 10) calls).1
            ≡ polls os ch base tries 0x110 10_000_000 calls)
  unfolding poll_done_every_10ms
  poll_done_calls calls =
      let (k, le, e, t) = poll_calls os ch base 0x110 1 1 1000 10_000_000 calls in (k, le, e)

  pub poll_read_clear_calls :
      (calls : List Call)
      → (tries : ℕ) × (tries ≤ 1000)
        × ((poll_read_clear_every_10ms c d (from_secs 10) calls).1
            ≡ polls os ch base tries 0x10c 10_000_000 calls)
  unfolding poll_read_clear_every_10ms
  poll_read_clear_calls calls =
      let (k, le, e, t) = poll_calls os ch base 0x10c 2 0 1000 10_000_000 calls in (k, le, e)
