-- ===== src/Cms/Answered.antt =====
-- The ways in which `get_card_info` of sw/rust/warpshell/src/cores/cms.rs can end.
mod Steps
pub mod Cases
use warpshell.Base.{
  ℕ, ◌+◌, ◌%◌, ◌^◌, List, [], ◌==◌, ==_iff, ◌≡◌, ◌∙◌, ◌≢◌, ◌⊎◌, if◌then◌else◌, refl, ap, arith,
  length, bit_and, bit_or, inl, inr, Bool-cases,
}
use warpshell.Base.Bits.{bit_and_low}
use warpshell.Base.Bytes.{u64}
use warpshell.System.{Call, Os}
use warpshell.Outcome.{Outcome, ok, err, Exec, ◌>>=◌, ◌>>◌, pure, lift, map_err, map_error, raise}
use warpshell.Based.{BasedError, BasedCtrlOps, poll_reg_mask_sleep}
use warpshell.Based.Poll.{poll_reg_mask_sleep_lem}
use warpshell.Xdma.{CtrlChannel, ctrl_ops}
use warpshell.Xdma.Transport.{ctrl_ops-Answers, write_u32-cases}
use warpshell.Cms.{
  CmsError, based_error, mailbox_not_available, host_msg_failed, card_info_parse_error, get_cms_reg,
  get_cms_control_reg, set_cms_control_reg, set_cms_reg, get_mailbox_offset, read_info,
  request_card_info, get_card_info,
}
use Cases.{
  Refusal, at_opcode, at_control, at_mark, at_answer, Located, Asked, Headed, Failed, at_state,
  at_offset, at_request, at_error, at_header, at_word, Answered, busy, rejected, answered, failed,
  c, Run,
}
use Steps.{read_then, write_then, poll_then}
use warpshell.Cms.Rounds.{word_reads, read_info_rounds}
use warpshell.Cms.Reg.{host_msg_error}
use warpshell.Cms.CardInfo.{card_info_try_from}
use warpshell.Cms.CardInfo.Item.{CardInfoItem}

module _ {E : Type 0} (os : Os E) (ch : CtrlChannel) (base : ℕ) where
  abbrev c' : BasedCtrlOps E
  c' = c os ch base

  abbrev Ended : List Call → Run os ch base (List CardInfoItem) → Type 0
  Ended = Answered os ch base

  -- An access with its outcome, and the log after it
  known :
      {X A : Type 0} (m : Exec X A) (s : List Call) {r : Outcome X A}
      → (m s).0 ≡ r
      → m s ≡ (r, (m s).1)
  known m s e = ap (λ o. (o, (m s).1)) e

  -- Once the header of the answer is known
  bodies :
      (calls : List Call) (m word : ℕ) (s : List Call)
      → Headed os ch base calls m word s
      → Ended calls (
          (do
            info_bytes ← read_info c' (bit_and word 0xfff) m [] 4 (bit_and word 0xfff)
            lift (map_error card_info_parse_error (card_info_try_from info_bytes)))
            s)
  bodies calls m word s headed =
      let size : bit_and word 0xfff ≡ word % 2 ^ 12 = bit_and_low 12 word in
      let reader = read_info c' (bit_and word 0xfff) m [] 4 (bit_and word 0xfff) in
      let (k, few, ends, cases) =
        read_info_rounds c' (ctrl_ops-Answers os ch base) m (bit_and word 0xfff) 4
          (bit_and word 0xfff) [] s (omega arith) in
      elim cases [
        | inl (bytes, e, le, len) ↦
            answered m word bytes s (reader s).1 headed (known reader s e)
              (omega (arith, len, size)) (rw e refl)
        | inr (j, x, last, bad, e) ↦
            failed x (reader s).1
              (at_word m word j s headed (omega (arith, few, last, size)) bad
                (ends ∙ ap (λ n. word_reads c' (ctrl_ops-Answers os ch base) m n 4 s) last))
              (rw e refl)
      ]

  -- Once the core has taken the request
  reads :
      (calls : List Call) (m : ℕ) (s : List Call)
      → Asked os ch base calls m s
      → Ended calls (
          (do
            error ← get_cms_reg c' host_msg_error
            if error == 0
                then (do
                  word ← map_err based_error (c'.based_ctrl_read_u32 m)
                  info_bytes ← read_info c' (bit_and word 0xfff) m [] 4 (bit_and word 0xfff)
                  lift (map_error card_info_parse_error (card_info_try_from info_bytes)))
                else raise (host_msg_failed error))
            s)
  unfolding get_cms_reg
  reads calls m s asked =
      read_then os ch base (Ended calls) 0x2_8304 _ s
        (λ x e. failed x _ (at_error m s asked e refl) refl)
        (λ error e.
          let s₁ : List Call = (c'.based_ctrl_read_u32 0x2_8304 s).1 in
          let reported = known (c'.based_ctrl_read_u32 0x2_8304) s e in
          elim (Bool-cases (error == 0)) [
            | inr z ↦ rw z (rejected m error s s₁ asked reported (ground arith) refl)
            | inl z ↦
                let none_reported = rw ((==_iff error 0).0 z) at reported in
                rw z (
                  read_then os ch base (Ended calls) m _ s₁
                    (λ x bad. failed x _ (at_header m s s₁ asked none_reported bad refl) refl)
                    (λ word got. bodies calls m word _ (record {
                      s₁ = s;
                      s₂ = s₁;
                      asked = asked;
                      no_error = none_reported;
                      header = known (c'.based_ctrl_read_u32 m) s₁ got;
                    })))
          ])

  -- A request succeeds, or is ended by one of its accesses.
  abbrev Done : ℕ → List Call → Run os ch base Unit → Type 0
  Done m s run =
      (run.0 ≡ ok tt)
      ⊎ ((x : BasedError E) × (log : List Call) × Refusal os ch base m s x log
          × (run ≡ (err (based_error x), log)))

  request-Done : (m : ℕ) (s : List Call) → Done m s (request_card_info c' m s)
  unfolding request_card_info get_cms_control_reg get_cms_reg set_cms_control_reg set_cms_reg
  request-Done m s =
      let wrote = c'.based_ctrl_write_u32 in
      let s₁ : List Call = (wrote m 0x0400_0000 s).1 in
      let s₂ : List Call = (c'.based_ctrl_read_u32 0x2_8018 s₁).1 in
      write_then os ch base (Done m s) m 0x0400_0000 _ s
        (λ x e. inr (x, s₁, at_opcode e refl, refl))
        (λ e₁.
          let one = known (wrote m 0x0400_0000) s e₁ in
          read_then os ch base (Done m s) 0x2_8018 _ s₁
            (λ x e. inr (x, s₂, at_control s₁ one e refl, refl))
            (λ v e₂.
              let two = known (c'.based_ctrl_read_u32 0x2_8018) s₁ e₂ in
              let s₃ : List Call = (wrote 0x2_8018 (bit_or v 32) s₂).1 in
              write_then os ch base (Done m s) 0x2_8018 (bit_or v 32) _ s₂
                (λ x e. inr (x, s₃, at_mark v s₁ s₂ one two e refl, refl))
                (λ e₃.
                  let three = known (wrote 0x2_8018 (bit_or v 32)) s₂ e₃ in
                  poll_then os ch base (Done m s) 0x2_8018 32 0 100 10_000_000 (pure tt) s₃
                    (λ x e. inr (x, _, at_answer v s₁ s₂ s₃ one two three e refl, refl))
                    (inl refl))))

  -- Once the mailbox is located
  asks :
      (calls : List Call) (m : ℕ) (s : List Call)
      → Located os ch base calls m s
      → Ended calls (
          (do
            request_card_info c' m
            error ← get_cms_reg c' host_msg_error
            if error == 0
                then (do
                  word ← map_err based_error (c'.based_ctrl_read_u32 m)
                  info_bytes ← read_info c' (bit_and word 0xfff) m [] 4 (bit_and word 0xfff)
                  lift (map_error card_info_parse_error (card_info_try_from info_bytes)))
                else raise (host_msg_failed error))
            s)
  asks calls m s located = elim (request-Done m s) [
    | inl e ↦ rw e (
        reads calls m (request_card_info c' m s).1
          (record { s = s; located = located; taken = known (request_card_info c' m) s e }))
    | inr (x, log, refusal, e) ↦ rw e (failed x log (at_request m s located refusal) refl)
  ]

  -- `get_card_info` over the card's control channel ends in one of four ways: with
  -- `MailboxNotAvailable`, when the control register says that the mailbox is in use; with
  -- `HostMsgError` and the error that the core reports, when the core has taken the request and
  -- that error is not zero; with the parser's result on the bytes that it has read from the mailbox,
  -- as many as the low 12 bits of the answer's header say, when the core has taken the request and
  -- reports none; or, when an access or the poll fails, with its error, which is that of one of these at
  -- its place in this order: the reads of the control register and of the mailbox's offset, the
  -- write, the read, the write and the poll of the request, and the reads of the error register, of
  -- the header and of the words of the message. Nothing is called after what fails.
  pub get_card_info-Answered : (calls : List Call) → Ended calls (get_card_info c' calls)
  unfolding get_card_info get_mailbox_offset get_cms_control_reg get_cms_reg
  get_card_info-Answered calls =
      let s₁ : List Call = (c'.based_ctrl_read_u32 0x2_8018 calls).1 in
      elim ((ctrl_ops-Answers os ch base).answers 0x2_8018 calls) [
        | inr (x, e) ↦ rw e (failed x s₁ (at_state e refl) refl)
        | inl (v, e) ↦
            let state = known (c'.based_ctrl_read_u32 0x2_8018) calls e in
            elim (Bool-cases (bit_and v 32 == 0)) [
              | inr z ↦ rw (e, z) (busy v s₁ state (ground arith) refl)
              | inl z ↦
                  let free = (==_iff (bit_and v 32) 0).0 z in
                  elim ((ctrl_ops-Answers os ch base).answers 0x2_8300 s₁) [
                    | inr (x, e') ↦
                        rw (e, z, e') (failed x _ (at_offset v s₁ state free e' refl) refl)
                    | inl (o, e') ↦
                        rw (e, z, e')
                          (asks calls _ _ (record {
                            v = v;
                            o = o;
                            s₁ = s₁;
                            state = state;
                            free = free;
                            offset = known (c'.based_ctrl_read_u32 0x2_8300) s₁ e';
                            mailbox = refl;
                          }))
                  ]
            ]
      ]
