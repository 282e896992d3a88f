-- ===== src/Hbicap/Abort.antt =====
-- The abort sequence of sw/rust/warpshell/src/cores/hbicap.rs, over the device files.
use warpshell.Base.{ℕ, ◌+◌, ◌≤◌, List, ◌∷◌, Bool, true, false, ◌≡◌, refl, ap, ◌∙◌, if◌then◌else◌}
use warpshell.Base.Bytes.{u64}
use warpshell.System.{Call, read_exact_at, Os}
use warpshell.Outcome.{Calm, Calm-bind, Calm-map_err, ok, Exec, bind-ok_next, pure}
use warpshell.Based.{poll_reg_mask_sleep, BasedCtrlOps, BasedDmaOps}
use warpshell.Xdma.{CtrlChannel, DmaChannel, ctrl_ops, dma_ops}
use warpshell.Xdma.Transport.{
  Calm-read_u32, Calm-write_u32, Calm-poll, polls, poll_calls, read_u32_calls, write_u32_calls,
}
use warpshell.Hbicap.{
  based_error, HbicapError, set_hbicap_reg, get_hbicap_reg, from_secs, poll_done_every_10ms,
  poll_abort_finished_every_10ms, abort,
}
use warpshell.Hbicap.Packet.{hbicap_offset, HbicapReg, control, abort_status}
use warpshell.Hbicap.Calls.{reg_write, poll_done_calls}

module _ {E : Type 0} (os : Os E) (ch : CtrlChannel) (base : ℕ) (dma : DmaChannel)
    (dma_base : ℕ) where
  abbrev c : BasedCtrlOps E
  c = ctrl_ops os ch base

  abbrev d : BasedDmaOps E
  d = dma_ops os dma dma_base

  -- With the logger on, two registers are read to be shown.
  abbrev pub shown : Bool → List Call → List Call
  shown true calls =
      read_exact_at ch.cdev 4 (u64 (base + 0x10c))
      ∷ read_exact_at ch.cdev 4 (u64 (base + 0x11c))
      ∷ calls
  shown false calls = calls

  abbrev log_reg : Bool → HbicapReg → Exec (HbicapError E) ℕ
  log_reg debug reg = if debug then get_hbicap_reg c d reg else pure 0

  shown_calls :
      (debug : Bool) (calls : List Call)
      → (log_reg debug control (log_reg debug abort_status calls).1).1 ≡ shown debug calls
  unfolding get_hbicap_reg
  shown_calls true calls =
      read_u32_calls os ch base 0x10c _
      ∙ ap (λ l. read_exact_at ch.cdev 4 (u64 (base + 0x10c)) ∷ l)
          (read_u32_calls os ch base 0x11c calls)
  shown_calls false calls = refl

  finished_calls :
      (calls : List Call)
      → (tries : ℕ) × (tries ≤ 1000)
        × ((poll_abort_finished_every_10ms c d (from_secs 10) calls).1
            ≡ polls os ch base tries 0x10c 10_000_000 calls)
  unfolding poll_abort_finished_every_10ms
  finished_calls calls =
      let (k, le, e, t) = poll_calls os ch base 0x10c 16 0 1000 10_000_000 calls in (k, le, e)

  control_calls :
      (calls : List Call)
      → (set_hbicap_reg c d control 16 calls).1 ≡ reg_write os ch base dma dma_base 0x10c 16 ∷ calls
  unfolding set_hbicap_reg
  control_calls calls = write_u32_calls os ch base 0x10c 16 calls

  -- An abort that succeeds has set the abort bit, polled the status register, read the two
  -- registers that the log shows if the logger is on, and polled the control register, each poll
  -- of at most 1000 tries, every 10 ms, and has made no other calls.
  pub abort_lem :
      (debug : Bool) (calls : List Call)
      → (abort c d debug calls).0 ≡ ok tt
      → (idle : ℕ) × (cleared : ℕ) × (idle ≤ 1000)
        × (cleared ≤ 1000)
        × ((abort c d debug calls).1
            ≡ polls os ch base cleared 0x10c 10_000_000 (
                shown debug (
                  polls os ch base idle 0x110 10_000_000
                    (reg_write os ch base dma dma_base 0x10c 16 ∷ calls))))
  unfolding abort
  abort_lem debug calls h =
      let (u₁, a₁, l₁, h₁) = bind-ok_next (set_hbicap_reg c d control 16) _ calls h in
      let s₁ : List Call = (set_hbicap_reg c d control 16 calls).1 in
      let (u₂, a₂, l₂, h₂) = bind-ok_next (poll_done_every_10ms c d (from_secs 10)) _ s₁ h₁ in
      let s₂ : List Call = (poll_done_every_10ms c d (from_secs 10) s₁).1 in
      let (u₃, a₃, l₃, h₃) = bind-ok_next (log_reg debug abort_status) _ s₂ h₂ in
      let s₃ : List Call = (log_reg debug abort_status s₂).1 in
      let (u₄, a₄, l₄, h₄) = bind-ok_next (log_reg debug control) _ s₃ h₃ in
      let s₄ : List Call = (log_reg debug control s₃).1 in
      let (u₅, a₅, l₅, h₅) =
        bind-ok_next (poll_abort_finished_every_10ms c d (from_secs 10)) _ s₄ h₄ in
      let (idle, le, z₂) = poll_done_calls os ch base dma dma_base s₁ in
      let (cleared, le₅, z₅) = finished_calls s₄ in
      (
        idle,
        cleared,
        le,
        le₅,
        l₁ ∙ l₂ ∙ l₃ ∙ l₄ ∙ l₅ ∙ cc (z₅, shown_calls debug s₂, z₂, control_calls calls),
      )

  log_reg-Calm : (debug : Bool) (reg : HbicapReg) → Calm (log_reg debug reg)
  unfolding get_hbicap_reg
  log_reg-Calm true reg =
      Calm-map_err based_error (c.based_ctrl_read_u32 (hbicap_offset reg))
        (Calm-read_u32 os ch base (hbicap_offset reg))
  log_reg-Calm false reg = λ s h. absurd (cc h)

  set_control-Calm : Calm (set_hbicap_reg c d control 16)
  unfolding set_hbicap_reg
  set_control-Calm =
      Calm-map_err based_error (c.based_ctrl_write_u32 0x10c 16)
        (Calm-write_u32 os ch base 0x10c 16)

  poll_done-Calm : Calm (poll_done_every_10ms c d (from_secs 10))
  unfolding poll_done_every_10ms
  poll_done-Calm =
      Calm-map_err based_error (poll_reg_mask_sleep c 0x110 1 1 1000 10_000_000)
        (Calm-poll os ch base 0x110 1 1 1000 10_000_000)

  poll_abort-Calm : Calm (poll_abort_finished_every_10ms c d (from_secs 10))
  unfolding poll_abort_finished_every_10ms
  poll_abort-Calm =
      Calm-map_err based_error (poll_reg_mask_sleep c 0x10c 16 0 1000 10_000_000)
        (Calm-poll os ch base 0x10c 16 0 1000 10_000_000)

  pub abort-Calm : (debug : Bool) → Calm (abort c d debug)
  unfolding abort
  abort-Calm debug = Calm-bind (set_hbicap_reg c d control 16) _ set_control-Calm λ _.
      Calm-bind (poll_done_every_10ms c d (from_secs 10)) _ poll_done-Calm λ _.
        Calm-bind (log_reg debug abort_status) _ (log_reg-Calm debug abort_status) λ _.
          Calm-bind (log_reg debug control) _ (log_reg-Calm debug control) λ _.
            Calm-bind (poll_abort_finished_every_10ms c d (from_secs 10)) _ poll_abort-Calm
              λ _ s h. absurd (cc h)
