-- ===== src/Cms/Startup.antt =====
-- `init` and the mailbox request of sw/rust/warpshell/src/cores/cms.rs, over the device file.
use warpshell.Base.{
  ==_iff, sym, arith, ℕ, ◌+◌, ◌≤◌, List, ◌∷◌, Bool, true, false, ◌==◌, ◌≡◌, refl, ap, ◌∙◌, arith,
  bit_or, if◌then◌else◌,
}
use warpshell.Base.Bytes.{u64, to_le_bytes}
use warpshell.System.{Call, read_exact_at, write_all_at, Os}
use warpshell.Outcome.{map_err, map_err-ok, ok, Exec, bind-ok_next, map_err-ok, raise}
use warpshell.Based.{poll_reg_mask_sleep, BasedCtrlOps}
use warpshell.Xdma.{CtrlChannel, ctrl_ops}
use warpshell.Xdma.Transport.{polls, poll_calls, read_u32_calls, write_u32_calls}
use warpshell.Cms.{
  request_card_info, set_cms_control_reg, get_cms_control_reg, CmsError, set_cms_reg,
  get_reg_map_id, get_cms_reg, get_cms_control_reg, set_cms_control_reg, expect_ready_host_status,
  enable_hbm_temp_monitoring, init,
}
use warpshell.Cms.Reg.{microblaze_reset_n}

guard-ok :
    {X : Type 0} (b : Bool) (m : Exec X Unit) (x : X) (calls : List Call)
    → ((if b then m else raise x) calls).0 ≡ ok tt
    → (b ≡ true) × ((if b then m else raise x) calls ≡ m calls) × ((m calls).0 ≡ ok tt)
guard-ok true m x calls h = (refl, refl, h)
guard-ok false m x calls h = absurd (ground arith)

module _ {E : Type 0} (os : Os E) (ch : CtrlChannel) (base : ℕ) where
  abbrev c : BasedCtrlOps E
  c = ctrl_ops os ch base

  abbrev pub reg_read : ℕ → Call
  reg_read offset = read_exact_at ch.cdev 4 (u64 (base + offset))

  abbrev pub reg_write : ℕ → ℕ → Call
  reg_write offset value = write_all_at ch.cdev (to_le_bytes value) (u64 (base + offset))

  enable_calls :
      (calls : List Call)
      → (enable_hbm_temp_monitoring c calls).0 ≡ ok tt
      → (v : ℕ) × ((c.based_ctrl_read_u32 0x2_8018 calls).0 ≡ ok v)
        × ((enable_hbm_temp_monitoring c calls).1
            ≡ reg_write 0x2_8018 (bit_or v 0x800_0000) ∷ reg_read 0x2_8018 ∷ calls)
  unfolding enable_hbm_temp_monitoring get_cms_control_reg set_cms_control_reg get_cms_reg
      set_cms_reg
  enable_calls calls h =
      let (v, o, log, k) = bind-ok_next (get_cms_control_reg c) _ calls h in
      (
        v,
        map_err-ok CmsError.based_error (c.based_ctrl_read_u32 0x2_8018) calls o,
        log
            ∙ write_u32_calls os ch base 0x2_8018 _ _
            ∙ ap (λ l. reg_write 0x2_8018 (bit_or v 0x800_0000) ∷ l)
                (read_u32_calls os ch base 0x2_8018 calls),
      )

  -- An `init` that succeeds, with the log once the core is ready
  pub record Started (calls log : List Call) : Type 0 where
    pub tries : ℕ
    pub in_time : tries ≤ 1000
    pub ready : List Call
    pub polled : ready ≡ polls os ch base tries 0x2_830c 1_000_000 (reg_write 0x2_0000 1 ∷ calls)
    pub supported : (c.based_ctrl_read_u32 0x2_8000 ready).0 ≡ ok 0x7473_6574
    pub value : ℕ
    pub was : (c.based_ctrl_read_u32 0x2_8018 (reg_read 0x2_8000 ∷ ready)).0 ≡ ok value
    pub logged :
        log
        ≡ reg_write 0x2_8018 (bit_or value 0x800_0000)
          ∷ reg_read 0x2_8018
          ∷ reg_read 0x2_8000
          ∷ ready

  -- An `init` that succeeds has released the MicroBlaze from reset, polled the host status at most
  -- 1000 times, every ms, read the supported id from the register map id, read the control register
  -- and written it back with the HBM temperature bit set, and made no other calls.
  pub init-Started : (calls : List Call) → (init c calls).0 ≡ ok tt → Started calls (init c calls).1
  unfolding init set_cms_reg expect_ready_host_status get_reg_map_id get_cms_reg
  init-Started calls h =
      let (u₁, a, l₁, h₁) = bind-ok_next (set_cms_reg c microblaze_reset_n 1) _ calls h in
      let s₁ : List Call = (set_cms_reg c microblaze_reset_n 1 calls).1 in
      let (t, p, l₂, h₂) = bind-ok_next (expect_ready_host_status c 1000) _ s₁ h₁ in
      let s₂ : List Call = (expect_ready_host_status c 1000 s₁).1 in
      let (i, r, l₃, h₃) = bind-ok_next (get_reg_map_id c) _ s₂ h₂ in
      let s₃ : List Call = (get_reg_map_id c s₂).1 in
      let (tries, le, waited, exact) = poll_calls os ch base 0x2_830c 1 1 1000 1_000_000 s₁ in
      let (matches, same, k) = guard-ok (i == 0x7473_6574) (enable_hbm_temp_monitoring c) _ s₃ h₃ in
      let (v, read, log) = enable_calls s₃ k in
      let id : (c.based_ctrl_read_u32 0x2_8000 s₂).0 ≡ ok i =
        map_err-ok CmsError.based_error (c.based_ctrl_read_u32 0x2_8000) s₂ r in
      let third : s₃ ≡ reg_read 0x2_8000 ∷ s₂ = read_u32_calls os ch base 0x2_8000 s₂ in
      record {
        tries = tries;
        in_time = le;
        ready = s₂;
        polled =
            waited
            ∙ ap (polls os ch base tries 0x2_830c 1_000_000)
                (write_u32_calls os ch base 0x2_0000 1 calls);
        supported = id ∙ ap ok ((==_iff i 0x7473_6574).0 matches);
        value = v;
        was = ap (λ l. (c.based_ctrl_read_u32 0x2_8018 l).0) (sym third) ∙ read;
        logged =
            l₁
            ∙ l₂
            ∙ l₃
            ∙ ap (λ q. q.1) same
            ∙ log
            ∙ ap (λ l. reg_write 0x2_8018 (bit_or v 0x800_0000) ∷ reg_read 0x2_8018 ∷ l) third;
      }

  -- A request that succeeds has written the opcode of card information to the mailbox, read the
  -- control register, written back what it read with the mailbox bit set, and polled the control
  -- register at most 100 times, every 10 ms, and has made no other calls.
  request_card_info_lem :
      (mbox_offset : ℕ) (calls : List Call)
      → (request_card_info c mbox_offset calls).0 ≡ ok tt
      → let asked : List Call = reg_write mbox_offset 0x0400_0000 ∷ calls in
        (v : ℕ) × (tries : ℕ) × (tries ≤ 100)
        × ((c.based_ctrl_read_u32 0x2_8018 asked).0 ≡ ok v)
        × ((request_card_info c mbox_offset calls).1
            ≡ polls os ch base tries 0x2_8018 10_000_000
                (reg_write 0x2_8018 (bit_or v 32) ∷ reg_read 0x2_8018 ∷ asked))
  unfolding request_card_info get_cms_control_reg set_cms_control_reg get_cms_reg set_cms_reg
  request_card_info_lem mbox_offset calls h =
      let ask = map_err CmsError.based_error (c.based_ctrl_write_u32 mbox_offset 0x0400_0000) in
      let (u₁, a, l₁, h₁) = bind-ok_next ask _ calls h in
      let s₁ : List Call = (ask calls).1 in
      let first : s₁ ≡ reg_write mbox_offset 0x0400_0000 ∷ calls =
        write_u32_calls os ch base mbox_offset 0x0400_0000 calls in
      let (v, r, l₂, h₂) = bind-ok_next (get_cms_control_reg c) _ s₁ h₁ in
      let s₂ : List Call = (get_cms_control_reg c s₁).1 in
      let second : s₂ ≡ reg_read 0x2_8018 ∷ s₁ = read_u32_calls os ch base 0x2_8018 s₁ in
      let (u₃, w, l₃, h₃) = bind-ok_next (set_cms_control_reg c (bit_or v 32)) _ s₂ h₂ in
      let s₃ : List Call = (set_cms_control_reg c (bit_or v 32) s₂).1 in
      let third : s₃ ≡ reg_write 0x2_8018 (bit_or v 32) ∷ s₂ =
        write_u32_calls os ch base 0x2_8018 (bit_or v 32) s₂ in
      let (t, p, l₄, h₄) =
        bind-ok_next
          (map_err CmsError.based_error (poll_reg_mask_sleep c 0x2_8018 32 0 100 10_000_000)) _ s₃
          h₃ in
      let (tries, le, waited, exact) = poll_calls os ch base 0x2_8018 32 0 100 10_000_000 s₃ in
      (
        v,
        tries,
        le,
        ap (λ l. (c.based_ctrl_read_u32 0x2_8018 l).0) (sym first)
            ∙ map_err-ok CmsError.based_error (c.based_ctrl_read_u32 0x2_8018) s₁ r,
        l₁
            ∙ l₂
            ∙ l₃
            ∙ l₄
            ∙ waited
            ∙ ap (polls os ch base tries 0x2_8018 10_000_000) (
                third
                ∙ ap (λ l. reg_write 0x2_8018 (bit_or v 32) ∷ l)
                    (second ∙ ap (λ l. reg_read 0x2_8018 ∷ l) first)),
      )
