-- ===== src/Shell/Quiet.antt =====
-- Calls that unblock a firewall, and the parts of programming that make none.
use warpshell.Base.{
  ℕ, zero, suc, ◌+◌, List, [], ◌∷◌, length, ◌/◌, Bool, true, false, ◌&&◌, ◌||◌, ◌≡◌, ◌≢◌, refl, ap,
  ◌∙◌, arith, inl, inr, ◌==◌, if◌then◌else◌,
}
use warpshell.Base.Bytes.{u32, u64}
use warpshell.System.{File, Call, write_all_at, Os}
use warpshell.Outcome.{ok, Outcome-cases, Exec, ◌>>=◌, pure}
use warpshell.Based.{BasedCtrlOps, BasedDmaOps, poll_reg_mask_sleep}
use warpshell.Xdma.{ctrl_ops, dma_ops}
use warpshell.Xdma.Transport.{polls, read_u32_calls, write_u32_calls, poll_calls}
use warpshell.AxiFirewall.{block_mi, mi_block_mask}
use warpshell.Hbicap.Packet.{HbicapReg, hbicap_offset, size, control, abort_status}
use warpshell.Hbicap.{
  set_hbicap_reg, get_hbicap_reg, from_secs, write_bitstream, poll_done_every_10ms, abort,
  poll_abort_finished_every_10ms,
}
use warpshell.Shell.{
  XilinxU55nXdmaStd, on_ctrl, on_dma, base_addr, ctrl_axi_firewall_core, dma_axi_firewall_core,
  hbicap_ctrl_if, hbicap_dma_if,
}

-- A write to the unblock register of one of the two firewalls
abbrev pub is_unblock : File → Call → Bool
is_unblock file (write_all_at f bytes address) =
    f == file && (address == 0x0407_0008 || address == 0x0408_0008)
is_unblock file _ = false

-- How often a log unblocks a firewall
unfoldable pub unblocks : File → List Call → ℕ
unblocks file [] = 0
unblocks file (call ∷ calls) = (if is_unblock file call then 1 else 0) + unblocks file calls

module _ (file : File) where
  -- `m` makes no such call.
  abbrev pub Quiet : {X A : Type 0} → Exec X A → Type 0
  Quiet m = (calls : List Call) → unblocks file (m calls).1 ≡ unblocks file calls

  pub Quiet-bind :
      {X A B : Type 0} (m : Exec X A) (f : A → Exec X B)
      → Quiet m
      → ((a : A) → Quiet (f a))
      → Quiet (m >>= f)
  Quiet-bind m f qm qf calls = elim (Outcome-cases (m calls).0) [
    | inl (a, e) ↦ rw e (qf a (m calls).1 ∙ qm calls)
    | inr (inl (x, e)) ↦ rw e (qm calls)
    | inr (inr e) ↦ rw e (qm calls)
  ]

  -- If running on from `m` unblocks a firewall although `m` does not, then `m` has succeeded.
  pub must_succeed :
      {X A B : Type 0} (m : Exec X A) (f : A → Exec X B) (calls : List Call)
      → Quiet m
      → unblocks file ((m >>= f) calls).1 ≢ unblocks file calls
      → (a : A) × ((m calls).0 ≡ ok a)
        × (unblocks file (f a (m calls).1).1 ≢ unblocks file (m calls).1)
  must_succeed m f calls qm ne = elim (Outcome-cases (m calls).0) [
    | inl (a, e) ↦ (a, e, λ p. ne (rw e (p ∙ qm calls)))
    | inr (inl (x, e)) ↦ absurd (ne (rw e (qm calls)))
    | inr (inr e) ↦ absurd (ne (rw e (qm calls)))
  ]

module _ {E : Type 0} (os : Os E) (sh : XilinxU55nXdmaStd) where
  abbrev file : File
  file = sh.ctrl_channel.cdev

  Quiet-polls :
      (base k offset duration : ℕ) (calls : List Call)
      → unblocks file (polls os sh.ctrl_channel base k offset duration calls) ≡ unblocks file calls
  unfolding unblocks
  Quiet-polls base zero offset duration calls = refl
  Quiet-polls base (suc k) offset duration calls =
      Quiet-polls base k offset duration _ ∙ omega arith

  Quiet-poll :
      (base offset mask expected n duration : ℕ)
      → Quiet file
          (poll_reg_mask_sleep (ctrl_ops os sh.ctrl_channel base) offset mask expected n duration)
  Quiet-poll base offset mask expected n duration calls =
      let (k, le, e, t) =
        poll_calls os sh.ctrl_channel base offset mask expected n duration calls in
      rw e (Quiet-polls base k offset duration calls)

  Quiet-read :
      (base offset : ℕ) → Quiet file ((ctrl_ops os sh.ctrl_channel base).based_ctrl_read_u32 offset)
  unfolding unblocks
  Quiet-read base offset calls =
      ap (unblocks file) (read_u32_calls os sh.ctrl_channel base offset calls) ∙ omega arith

  -- A write elsewhere than to an unblock register
  Quiet-write :
      (base offset value : ℕ)
      → (u64 (base + offset) == 0x0407_0008) ≡ false
      → (u64 (base + offset) == 0x0408_0008) ≡ false
      → Quiet file ((ctrl_ops os sh.ctrl_channel base).based_ctrl_write_u32 offset value)
  unfolding unblocks
  Quiet-write base offset value h k calls =
      ap (unblocks file) (write_u32_calls os sh.ctrl_channel base offset value calls) ∙ ground arith

  Quiet-dma_write : (buf : List ℕ) → Quiet file ((on_dma os sh hbicap_dma_if).based_dma_write buf 0)
  unfolding unblocks dma_ops base_addr
  Quiet-dma_write buf calls = ground arith

  abbrev c : BasedCtrlOps E
  c = on_ctrl os sh hbicap_ctrl_if

  abbrev d : BasedDmaOps E
  d = on_dma os sh hbicap_dma_if

  pub Quiet-block_ctrl : Quiet file (block_mi (on_ctrl os sh ctrl_axi_firewall_core))
  unfolding block_mi base_addr
  Quiet-block_ctrl = Quiet-write 0x0407_0000 4 mi_block_mask refl refl

  pub Quiet-block_dma : Quiet file (block_mi (on_ctrl os sh dma_axi_firewall_core))
  unfolding block_mi base_addr
  Quiet-block_dma = Quiet-write 0x0408_0000 4 mi_block_mask refl refl

  Quiet-set_size : (value : ℕ) → Quiet file (set_hbicap_reg c d size value)
  unfolding set_hbicap_reg base_addr
  Quiet-set_size value = Quiet-write 0x0405_0000 0x108 value refl refl

  Quiet-set_control : (value : ℕ) → Quiet file (set_hbicap_reg c d control value)
  unfolding set_hbicap_reg base_addr
  Quiet-set_control value = Quiet-write 0x0405_0000 0x10c value refl refl

  Quiet-get : (reg : HbicapReg) → Quiet file (get_hbicap_reg c d reg)
  unfolding get_hbicap_reg
  Quiet-get reg = Quiet-read (base_addr hbicap_ctrl_if) (hbicap_offset reg)

  pub Quiet-write_bitstream : (image : List ℕ) → Quiet file (write_bitstream c d image)
  unfolding write_bitstream
  Quiet-write_bitstream image =
      Quiet-bind file (set_hbicap_reg c d size (u32 (length image / 4))) _ (Quiet-set_size _)
        (λ _. Quiet-dma_write image)

  pub Quiet-poll_done : (duration : ℕ) → Quiet file (poll_done_every_10ms c d duration)
  unfolding poll_done_every_10ms
  Quiet-poll_done duration = Quiet-poll (base_addr hbicap_ctrl_if) _ _ _ _ _

  Quiet-poll_abort : (duration : ℕ) → Quiet file (poll_abort_finished_every_10ms c d duration)
  unfolding poll_abort_finished_every_10ms
  Quiet-poll_abort duration = Quiet-poll (base_addr hbicap_ctrl_if) _ _ _ _ _

  Quiet-logged :
      {X : Type 0} (b : Bool) (m : Exec X ℕ) → Quiet file m → Quiet file (if b then m else pure 0)
  Quiet-logged true m qm = qm
  Quiet-logged false m qm = λ calls. refl

  pub Quiet-abort : (debug : Bool) → Quiet file (abort c d debug)
  unfolding abort
  Quiet-abort debug = Quiet-bind file (set_hbicap_reg c d control 16) _ (Quiet-set_control 16) λ _.
      Quiet-bind file (poll_done_every_10ms c d (from_secs 10)) _ (Quiet-poll_done _) λ _.
        Quiet-bind file (if debug then get_hbicap_reg c d abort_status else pure 0) _
          (Quiet-logged debug (get_hbicap_reg c d abort_status) (Quiet-get abort_status))
          λ _.
            Quiet-bind file (if debug then get_hbicap_reg c d control else pure 0) _
              (Quiet-logged debug (get_hbicap_reg c d control) (Quiet-get control))
              λ _.
                Quiet-bind file (poll_abort_finished_every_10ms c d (from_secs 10)) _
                  (Quiet-poll_abort _) (λ _ calls. refl)
