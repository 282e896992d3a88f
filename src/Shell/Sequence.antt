-- ===== src/Shell/Sequence.antt =====
-- The calls of `program_user_image` in sw/rust/warpshell/src/shells/xilinx_u55n_xdma_std.rs.
use warpshell.Base.{ℕ, ◌+◌, ◌≤◌, ◌/◌, List, ◌∷◌, Bool, ◌≡◌, ap, ◌∙◌, length}
use warpshell.Base.Bytes.{u32, u64, to_le_bytes}
use warpshell.System.{Call, write_all_at, Os}
use warpshell.Outcome.{ok, bind-ok_next, map_err, map_err-ok}
use warpshell.Based.{BasedCtrlOps, BasedDmaOps}
use warpshell.Hbicap.{from_secs, write_bitstream, poll_done_every_10ms}
use warpshell.Hbicap.Calls.{write_bitstream_calls, poll_done_calls}
use warpshell.AxiFirewall.{block_mi, unblock_mi, set_axi_firewall_reg, mi_side_soft_fault_control}
use warpshell.Xdma.{ctrl_ops}
use warpshell.Xdma.Transport.{polls, write_u32_calls}
use warpshell.Shell.{
  XilinxU55nXdmaStd, on_ctrl, on_dma, base_addr, hbicap_ctrl_if, hbicap_dma_if, make_idle,
  program_user_image, axi_firewall, hbicap,
}

module _ {E : Type 0} (os : Os E) (sh : XilinxU55nXdmaStd) where
  -- `value` written to the register of a core at `offset`
  abbrev pub reg_write : ℕ → ℕ → ℕ → Call
  reg_write base offset value =
      write_all_at sh.ctrl_channel.cdev (to_le_bytes value) (u64 (base + offset))

  abbrev c : BasedCtrlOps E
  c = on_ctrl os sh hbicap_ctrl_if

  abbrev d : BasedDmaOps E
  d = on_dma os sh hbicap_dma_if

  abbrev fw : ℕ → BasedCtrlOps E
  fw base = ctrl_ops os sh.ctrl_channel base

  block_calls :
      (base : ℕ) (calls : List Call)
      → (block_mi (fw base) calls).1 ≡ reg_write base 0x4 0x0100_0100 ∷ calls
  unfolding block_mi
  block_calls base calls = write_u32_calls os sh.ctrl_channel base 4 _ calls

  unblock_calls :
      (base : ℕ) (calls : List Call)
      → (unblock_mi (fw base) calls).0 ≡ ok tt
      → (unblock_mi (fw base) calls).1 ≡ reg_write base 0x8 1 ∷ reg_write base 0x4 0 ∷ calls
  unfolding unblock_mi set_axi_firewall_reg
  unblock_calls base calls h =
      let (u, one, log, two) =
        bind-ok_next (set_axi_firewall_reg (fw base) mi_side_soft_fault_control 0) _ calls h in
      log
      ∙ write_u32_calls os sh.ctrl_channel base 8 1 _
      ∙ ap (λ l. reg_write base 0x8 1 ∷ l) (write_u32_calls os sh.ctrl_channel base 4 0 calls)

  -- The log of a run that succeeds, the latest call first
  abbrev pub Sequence : List ℕ → List Call → ℕ → List Call → Type 0
  Sequence image idle_calls tries log =
      log
      ≡ reg_write 0x0407_0000 0x8 1
        ∷ reg_write 0x0407_0000 0x4 0
        ∷ reg_write 0x0408_0000 0x8 1
        ∷ reg_write 0x0408_0000 0x4 0
        ∷ polls os sh.ctrl_channel 0x0405_0000 tries 0x110 10_000_000 (
            write_all_at sh.dma_channel.h2c_cdev image 0x1000_0000_0000_0000
            ∷ reg_write 0x0405_0000 0x108 (u32 (length image / 4))
            ∷ reg_write 0x0408_0000 0x4 0x0100_0100
            ∷ reg_write 0x0407_0000 0x4 0x0100_0100
            ∷ idle_calls)

  -- A run that succeeds has, after what it does to make the core idle, made exactly these calls in
  -- this order: block the control firewall, block the DMA firewall, set the size to the number of
  -- whole words of the image, write the image in one DMA transfer, poll the status register at most
  -- 1000 times, every 10 ms, unblock the DMA firewall and unblock the control firewall.
  pub program_user_image-Sequence :
      (debug : Bool) (image : List ℕ) (calls : List Call)
      → (program_user_image os sh debug image calls).0 ≡ ok tt
      → (tries : ℕ) × (tries ≤ 1000)
        × Sequence image
            (make_idle os sh debug calls).1
            tries
            (program_user_image os sh debug image calls).1
  unfolding program_user_image base_addr
  program_user_image-Sequence debug image calls h =
      let (u₁, idle, l₁, h₁) = bind-ok_next (make_idle os sh debug) _ calls h in
      let s₁ : List Call = (make_idle os sh debug calls).1 in
      let (u₂, a, l₂, h₂) =
        bind-ok_next (map_err axi_firewall (block_mi (fw 0x0407_0000))) _ s₁ h₁ in
      let s₂ : List Call = (block_mi (fw 0x0407_0000) s₁).1 in
      let (u₃, b, l₃, h₃) =
        bind-ok_next (map_err axi_firewall (block_mi (fw 0x0408_0000))) _ s₂ h₂ in
      let s₃ : List Call = (block_mi (fw 0x0408_0000) s₂).1 in
      let (u₄, w, l₄, h₄) = bind-ok_next (map_err hbicap (write_bitstream c d image)) _ s₃ h₃ in
      let s₄ : List Call = (write_bitstream c d image s₃).1 in
      let (t, p, l₅, h₅) =
        bind-ok_next (map_err hbicap (poll_done_every_10ms c d (from_secs 10))) _ s₄ h₄ in
      let s₅ : List Call = (poll_done_every_10ms c d (from_secs 10) s₄).1 in
      let (u₆, x, l₆, h₆) =
        bind-ok_next (map_err axi_firewall (unblock_mi (fw 0x0408_0000))) _ s₅ h₅ in
      let s₆ : List Call = (unblock_mi (fw 0x0408_0000) s₅).1 in
      let (tries, le, waited) =
        poll_done_calls os sh.ctrl_channel 0x0405_0000 sh.dma_channel 0x1000_0000_0000_0000 s₄ in
      let logs : (program_user_image os sh debug image calls).1
          ≡ (unblock_mi (fw 0x0407_0000) s₆).1 =
        l₁ ∙ l₂ ∙ l₃ ∙ l₄ ∙ l₅ ∙ l₆ in
      let z₇ =
        unblock_calls 0x0407_0000 s₆
          (map_err-ok axi_firewall (unblock_mi (fw 0x0407_0000)) s₆ h₆) in
      let z₆ =
        unblock_calls 0x0408_0000 s₅ (map_err-ok axi_firewall (unblock_mi (fw 0x0408_0000)) s₅ x) in
      let z₄ =
        write_bitstream_calls os sh.ctrl_channel 0x0405_0000 sh.dma_channel 0x1000_0000_0000_0000
          image s₃ (map_err-ok hbicap (write_bitstream c d image) s₃ w) in
      let z₃ = block_calls 0x0408_0000 s₂ in
      let z₂ = block_calls 0x0407_0000 s₁ in (tries, le, logs ∙ z₇ ∙ cc (z₆, waited, z₄, z₃, z₂))
