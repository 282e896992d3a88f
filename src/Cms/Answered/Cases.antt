-- ===== src/Cms/Answered/Cases.antt =====
-- The ways in which `get_card_info` of sw/rust/warpshell/src/cores/cms.rs can end, and the answers of the
-- device on which it does.
use warpshell.Base.{ℕ, suc, ◌+◌, ◌*◌, ◌%◌, ◌^◌, ◌<◌, List, [], ◌≡◌, ◌≢◌, length, bit_and, bit_or}
use warpshell.Base.Bytes.{u64}
use warpshell.System.{Call, Os}
use warpshell.Outcome.{Outcome, ok, err, map_error}
use warpshell.Based.{BasedError, BasedCtrlOps, poll_reg_mask_sleep}
use warpshell.Xdma.{CtrlChannel, ctrl_ops}
use warpshell.Xdma.Transport.{ctrl_ops-Answers}
use warpshell.Cms.{
  CmsError, based_error, mailbox_not_available, host_msg_failed, card_info_parse_error, read_info,
  request_card_info,
}
use warpshell.Cms.Rounds.{word_reads}
use warpshell.Cms.CardInfo.{card_info_try_from}
use warpshell.Cms.CardInfo.Item.{CardInfoItem}

module _ {E : Type 0} (os : Os E) (ch : CtrlChannel) (base : ℕ) where
  abbrev pub c : BasedCtrlOps E
  c = ctrl_ops os ch base

  abbrev pub Run : Type 0 → Type 0
  Run A = Outcome (CmsError E) A × List Call

  -- A request for card information to the mailbox at `m`, after the log `s`, is ended by the access
  -- that fails with `x`, the last one of `log`: the write of the opcode, the read of the control register,
  -- the write of the mailbox bit, or the poll for the answer.
  pub data Refusal (m : ℕ) (s : List Call) (x : BasedError E) (log : List Call) : Type 0 where
    at_opcode :
        (c.based_ctrl_write_u32 m 0x0400_0000 s).0 ≡ err x
        → log ≡ (c.based_ctrl_write_u32 m 0x0400_0000 s).1
        → Refusal m s x log
    at_control :
        (s₁ : List Call)
        → c.based_ctrl_write_u32 m 0x0400_0000 s ≡ (ok tt, s₁)
        → (c.based_ctrl_read_u32 0x2_8018 s₁).0 ≡ err x
        → log ≡ (c.based_ctrl_read_u32 0x2_8018 s₁).1
        → Refusal m s x log
    at_mark :
        (v : ℕ) (s₁ s₂ : List Call)
        → c.based_ctrl_write_u32 m 0x0400_0000 s ≡ (ok tt, s₁)
        → c.based_ctrl_read_u32 0x2_8018 s₁ ≡ (ok v, s₂)
        → (c.based_ctrl_write_u32 0x2_8018 (bit_or v 32) s₂).0 ≡ err x
        → log ≡ (c.based_ctrl_write_u32 0x2_8018 (bit_or v 32) s₂).1
        → Refusal m s x log
    at_answer :
        (v : ℕ) (s₁ s₂ s₃ : List Call)
        → c.based_ctrl_write_u32 m 0x0400_0000 s ≡ (ok tt, s₁)
        → c.based_ctrl_read_u32 0x2_8018 s₁ ≡ (ok v, s₂)
        → c.based_ctrl_write_u32 0x2_8018 (bit_or v 32) s₂ ≡ (ok tt, s₃)
        → (poll_reg_mask_sleep c 0x2_8018 32 0 100 10_000_000 s₃).0 ≡ err x
        → log ≡ (poll_reg_mask_sleep c 0x2_8018 32 0 100 10_000_000 s₃).1
        → Refusal m s x log

  -- The mailbox is free and is at the offset `m`; `s` is the log once that is known.
  pub record Located (calls : List Call) (m : ℕ) (s : List Call) : Type 0 where
    pub v : ℕ
    pub o : ℕ
    pub s₁ : List Call
    pub state : c.based_ctrl_read_u32 0x2_8018 calls ≡ (ok v, s₁)
    pub free : bit_and v 32 ≡ 0
    pub offset : c.based_ctrl_read_u32 0x2_8300 s₁ ≡ (ok o, s)
    pub mailbox : m ≡ u64 (0x2_8000 + o)

  -- The core has also taken the request, and `log` is the log after it.
  pub record Asked (calls : List Call) (m : ℕ) (log : List Call) : Type 0 where
    pub s : List Call
    pub located : Located calls m s
    pub taken : request_card_info c m s ≡ (ok tt, log)

  -- The core has also reported no error, and `word` is the header of its answer.
  pub record Headed (calls : List Call) (m word : ℕ) (log : List Call) : Type 0 where
    pub s₁ : List Call
    pub s₂ : List Call
    pub asked : Asked calls m s₁
    pub no_error : c.based_ctrl_read_u32 0x2_8304 s₁ ≡ (ok 0, s₂)
    pub header : c.based_ctrl_read_u32 m s₂ ≡ (ok word, log)

  -- The access that has failed with `x`, the last one of `log`, and the answers up to it
  pub data Failed (calls : List Call) (x : BasedError E) (log : List Call) : Type 0 where
    at_state :
        (c.based_ctrl_read_u32 0x2_8018 calls).0 ≡ err x
        → log ≡ (c.based_ctrl_read_u32 0x2_8018 calls).1
        → Failed calls x log
    at_offset :
        (v : ℕ) (s : List Call)
        → c.based_ctrl_read_u32 0x2_8018 calls ≡ (ok v, s)
        → bit_and v 32 ≡ 0
        → (c.based_ctrl_read_u32 0x2_8300 s).0 ≡ err x
        → log ≡ (c.based_ctrl_read_u32 0x2_8300 s).1
        → Failed calls x log
    at_request :
        (m : ℕ) (s : List Call) → Located calls m s → Refusal m s x log → Failed calls x log
    at_error :
        (m : ℕ) (s : List Call)
        → Asked calls m s
        → (c.based_ctrl_read_u32 0x2_8304 s).0 ≡ err x
        → log ≡ (c.based_ctrl_read_u32 0x2_8304 s).1
        → Failed calls x log
    at_header :
        (m : ℕ) (s₁ s₂ : List Call)
        → Asked calls m s₁
        → c.based_ctrl_read_u32 0x2_8304 s₁ ≡ (ok 0, s₂)
        → (c.based_ctrl_read_u32 m s₂).0 ≡ err x
        → log ≡ (c.based_ctrl_read_u32 m s₂).1
        → Failed calls x log
    at_word :
        (m word j : ℕ) (s : List Call)
        → Headed calls m word s
        → 4 * j < word % 2 ^ 12
        → (c.based_ctrl_read_u32
            (u64 (m + (4 + 4 * j)))
            (word_reads c (ctrl_ops-Answers os ch base) m j 4 s)).0
          ≡ err x
        → log ≡ word_reads c (ctrl_ops-Answers os ch base) m (suc j) 4 s
        → Failed calls x log

  -- How a run after the log `calls` has ended, and on what answers of the device
  pub data Answered (calls : List Call) (run : Run (List CardInfoItem)) : Type 0 where
    busy :
        (v : ℕ) (log : List Call)
        → c.based_ctrl_read_u32 0x2_8018 calls ≡ (ok v, log)
        → bit_and v 32 ≢ 0
        → run ≡ (err mailbox_not_available, log)
        → Answered calls run
    rejected :
        (m error : ℕ) (s log : List Call)
        → Asked calls m s
        → c.based_ctrl_read_u32 0x2_8304 s ≡ (ok error, log)
        → error ≢ 0
        → run ≡ (err (host_msg_failed error), log)
        → Answered calls run
    answered :
        (m word : ℕ) (bytes : List ℕ) (s log : List Call)
        → Headed calls m word s
        → read_info c (bit_and word 0xfff) m [] 4 (bit_and word 0xfff) s ≡ (ok bytes, log)
        → length bytes ≡ word % 2 ^ 12
        → run ≡ (map_error card_info_parse_error (card_info_try_from bytes), log)
        → Answered calls run
    failed :
        (x : BasedError E) (log : List Call)
        → Failed calls x log
        → run ≡ (err (based_error x), log)
        → Answered calls run
