-- ===== src/Cms/Costs.antt =====
-- The system calls of the operations of sw/rust/warpshell/src/cores/cms.rs.
use warpshell.Base.{
  ℕ, ◌+◌, ◌<◌, List, [], ◌==◌, bit_and, bit_or, arith, length, zero, suc, ◌≡◌, refl,
}
use warpshell.Base.Bits.{bit_and_low}
use warpshell.Base.Bytes.{u64}
use warpshell.System.{Call, Os}
use warpshell.Outcome.{ok, err, raise, map_error, map_err}
use warpshell.Outcome.Costs.{
  slept, Costs, Costs-bind, Costs-if, Costs-map_err, Costs-none, Costs-le,
}
use warpshell.Based.{BasedCtrlOps, poll_reg_mask_sleep}
use warpshell.Xdma.{CtrlChannel, ctrl_ops}
use warpshell.Xdma.Transport.{ctrl_ops-Answers, read_u32_calls}
use warpshell.Xdma.Costs.{Costs-read_u32, Costs-write_u32, Costs-poll}
use warpshell.Cms.{
  based_error, host_status_not_ready, unsupported_reg_map_id, mailbox_not_available,
  host_msg_failed, card_info_parse_error, get_cms_reg, set_cms_reg, get_cms_control_reg,
  set_cms_control_reg, expect_ready_host_status, get_reg_map_id, enable_hbm_temp_monitoring, init,
  get_mailbox_offset, read_info, request_card_info, get_card_info,
}
use warpshell.Cms.Reg.{
  CmsReg, cms_offset, microblaze_reset_n, control, reg_map_id, host_msg_offset, host_msg_error,
}
use warpshell.Cms.CardInfo.{card_info_try_from}
use warpshell.Cms.Rounds.{word_reads, read_info_rounds}

module _ {E : Type 0} (os : Os E) (ch : CtrlChannel) (base : ℕ) where
  abbrev c : BasedCtrlOps E
  c = ctrl_ops os ch base

  pub get_cms_reg-Costs : (reg : CmsReg) → Costs 1 0 (get_cms_reg c reg)
  unfolding get_cms_reg
  get_cms_reg-Costs reg =
      Costs-map_err based_error (c.based_ctrl_read_u32 (cms_offset reg))
        (Costs-read_u32 os ch base (cms_offset reg))

  set_cms_reg-Costs : (reg : CmsReg) (v : ℕ) → Costs 1 0 (set_cms_reg c reg v)
  unfolding set_cms_reg
  set_cms_reg-Costs reg v =
      Costs-map_err based_error (c.based_ctrl_write_u32 (cms_offset reg) v)
        (Costs-write_u32 os ch base (cms_offset reg) v)

  ready-Costs : Costs 2000 1_000_000_000 (expect_ready_host_status c 1000)
  unfolding expect_ready_host_status
  ready-Costs =
      Costs-map_err (λ _. host_status_not_ready) (poll_reg_mask_sleep c 0x2_830c 1 1 1000 1_000_000)
        (Costs-poll os ch base 0x2_830c 1 1 1000 1_000_000)

  enable-Costs : Costs 2 0 (enable_hbm_temp_monitoring c)
  unfolding enable_hbm_temp_monitoring get_cms_control_reg set_cms_control_reg
  enable-Costs =
      Costs-bind (get_cms_control_reg c) _ (get_cms_reg-Costs control)
        λ v. set_cms_reg-Costs control (bit_or v 0x800_0000)

  pub init-Costs : Costs 2004 1_000_000_000 (init c)
  unfolding init get_reg_map_id
  init-Costs =
      Costs-bind (set_cms_reg c microblaze_reset_n 1) _ (set_cms_reg-Costs microblaze_reset_n 1)
        λ _. Costs-bind (expect_ready_host_status c 1000) _ ready-Costs λ _.
          Costs-bind (get_reg_map_id c) _ (get_cms_reg-Costs reg_map_id) λ v.
            Costs-if (v == 0x7473_6574) (enable_hbm_temp_monitoring c)
              (raise (unsupported_reg_map_id v)) enable-Costs
              (Costs-le (raise (unsupported_reg_map_id v)) (omega arith) (omega arith)
                (Costs-none (err (unsupported_reg_map_id v))))

  mailbox-Costs : Costs 2 0 (get_mailbox_offset c)
  unfolding get_mailbox_offset get_cms_control_reg
  mailbox-Costs = Costs-bind (get_cms_control_reg c) _ (get_cms_reg-Costs control) λ v.
      Costs-if (bit_and v 0x20 == 0) _ (raise mailbox_not_available)
        (Costs-bind (get_cms_reg c host_msg_offset) _ (get_cms_reg-Costs host_msg_offset)
          λ w. Costs-none (ok (u64 (0x2_8000 + w))))
        (Costs-le (raise mailbox_not_available) (omega arith) (omega arith)
          (Costs-none (err mailbox_not_available)))

  request-Costs : (mbox_offset : ℕ) → Costs 203 1_000_000_000 (request_card_info c mbox_offset)
  unfolding request_card_info get_cms_control_reg set_cms_control_reg
  request-Costs mbox_offset =
      let write = c.based_ctrl_write_u32 mbox_offset 0x400_0000 in
      let poll = poll_reg_mask_sleep c 0x2_8018 32 0 100 10_000_000 in
      Costs-bind (map_err based_error write) _
        (Costs-map_err based_error write (Costs-write_u32 os ch base mbox_offset 0x400_0000))
        λ _. Costs-bind (get_cms_control_reg c) _ (get_cms_reg-Costs control) λ v.
          Costs-bind (set_cms_control_reg c (bit_or v 32)) _ (set_cms_reg-Costs control _) λ _.
            Costs-bind (map_err based_error poll) _
              (Costs-map_err based_error poll (Costs-poll os ch base 0x2_8018 32 0 100 10_000_000))
              λ _. Costs-none (ok tt)

  abbrev reads : ℕ → ℕ → ℕ → List Call → List Call
  reads = word_reads c (ctrl_ops-Answers os ch base)

  length-reads : (m k offset : ℕ) (s : List Call) → length (reads m k offset s) ≡ k + length s
  length-reads m zero offset s = omega arith
  length-reads m (suc k) offset s =
      rw (read_u32_calls os ch base (u64 (m + offset)) s)
        (omega (arith, length-reads m k (offset + 4) _))

  slept-reads : (m k offset : ℕ) (s : List Call) → slept (reads m k offset s) ≡ slept s
  slept-reads m zero offset s = refl
  slept-reads m (suc k) offset s =
      rw (read_u32_calls os ch base (u64 (m + offset)) s) (slept-reads m k (offset + 4) _)

  -- The length of a message has twelve bits.
  read_info-Costs :
      (m word : ℕ) → Costs 1024 0 (read_info c (bit_and word 0xfff) m [] 4 (bit_and word 0xfff))
  read_info-Costs m word =
      let len : ℕ = bit_and word 0xfff in
      let small : len < 4096 = omega (arith, bit_and_low 12 word) in
      let rounds = λ (s : List Call).
        read_info_rounds c (ctrl_ops-Answers os ch base) m len 4 len [] s (omega arith) in
      record {
        calls =
            λ s. let (k, few, log, ends) = rounds s in rw log (omega (arith, length-reads m k 4 s));
        time =
            λ s. let (k, few, log, ends) = rounds s in rw log (omega (arith, slept-reads m k 4 s));
      }

  pub get_card_info-Costs : Costs 1231 1_000_000_000 (get_card_info c)
  unfolding get_card_info
  get_card_info-Costs = Costs-bind (get_mailbox_offset c) _ mailbox-Costs λ m.
      Costs-bind (request_card_info c m) _ (request-Costs m) λ _.
        Costs-bind (get_cms_reg c host_msg_error) _ (get_cms_reg-Costs host_msg_error) λ e.
          Costs-if (e == 0) _ (raise (host_msg_failed e))
            (Costs-bind (map_err based_error (c.based_ctrl_read_u32 m)) _
              (Costs-map_err based_error (c.based_ctrl_read_u32 m) (Costs-read_u32 os ch base m))
              λ word.
                Costs-bind (read_info c (bit_and word 0xfff) m [] 4 (bit_and word 0xfff)) _
                  (read_info-Costs m word)
                  λ bytes. Costs-none (map_error card_info_parse_error (card_info_try_from bytes)))
            (Costs-le (raise (host_msg_failed e)) (omega arith) (omega arith)
              (Costs-none (err (host_msg_failed e))))
