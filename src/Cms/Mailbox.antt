-- ===== src/Cms/Mailbox.antt =====
-- `get_card_info` of sw/rust/warpshell/src/cores/cms.rs and the mailbox.
use mathlib.Core.List.{append-nil, append_assoc}
use warpshell.Base.{
  ℕ, zero, suc, ◌+◌, ◌-◌, ◌*◌, ◌≤◌, ◌<◌, min, List, [], ◌∷◌, ◌++◌, ◌≡◌, refl, sym, ap, ap₂, ◌∙◌,
  arith, length, take, bit_and, ◌==◌, Bool-cases, inl, inr, false,
}
use warpshell.Base.Bytes.{u64, to_le_bytes, words_to_bytes}
use warpshell.Base.Bits.{bit, bit-bit_and}
use warpshell.System.{Call}
use warpshell.Outcome.{ok, err}
use warpshell.Based.{BasedCtrlOps}
use warpshell.Cms.{
  mailbox_not_available, get_cms_reg, get_cms_control_reg, get_mailbox_offset, read_info,
  request_card_info, get_card_info,
}
use warpshell.Cms.Reg.{host_msg_error}
use warpshell.Cms.CardInfo.{card_info_try_from}
use warpshell.Cms.CardInfo.Item.{CardInfoItem}
use warpshell.Cms.CardInfo.Messages.{Message}
use warpshell.Cms.CardInfo.Messages.Verdict.{card_info_try_from_iff}

-- From `offset` on, the core's memory reads as the words `ws`, whatever was called before.
abbrev pub Holds : {E : Type 0} → BasedCtrlOps E → ℕ → ℕ → List ℕ → Type 0
Holds c mbox_offset offset [] = Unit {0}
Holds c mbox_offset offset (w ∷ ws) =
    ((calls : List Call) → (c.based_ctrl_read_u32 (u64 (mbox_offset + offset)) calls).0 ≡ ok w)
    × Holds c mbox_offset (offset + 4) ws

take_word :
    (w : ℕ) (bytes : List ℕ) (n : ℕ)
    → 0 < n
    → take (min n 4) (to_le_bytes w) ++ take (n - 4) bytes ≡ take n (to_le_bytes w ++ bytes)
take_word w bytes zero h = absurd (omega arith)
take_word w bytes (suc zero) h = refl
take_word w bytes (suc (suc zero)) h = refl
take_word w bytes (suc (suc (suc zero))) h = refl
take_word w bytes (suc (suc (suc (suc n)))) h =
    let four : min (suc (suc (suc (suc n)))) 4 ≡ 4 = omega arith in
    let rest : suc (suc (suc (suc n))) - 4 ≡ n = omega arith in
    ap₂ (λ (a b : ℕ). take a (to_le_bytes w) ++ take b bytes) four rest

module _ {E : Type 0} (c : BasedCtrlOps E) (mbox_offset : ℕ) where
  read_info_end :
      (fuel offset : ℕ) (info_bytes : List ℕ) (calls : List Call)
      → read_info c fuel mbox_offset info_bytes offset 0 calls ≡ (ok info_bytes, calls)
  unfolding read_info
  read_info_end zero offset info_bytes calls = refl
  read_info_end (suc fuel) offset info_bytes calls = refl

  pub read_info_step :
      (fuel offset r w : ℕ) (info_bytes : List ℕ) (calls : List Call)
      → (c.based_ctrl_read_u32 (u64 (mbox_offset + offset)) calls).0 ≡ ok w
      → read_info c (suc fuel) mbox_offset info_bytes offset (suc r) calls
        ≡ read_info c fuel mbox_offset
            (info_bytes ++ take (min (suc r) 4) (to_le_bytes w))
            (offset + 4)
            (suc r - 4)
            (c.based_ctrl_read_u32 (u64 (mbox_offset + offset)) calls).1
  unfolding read_info
  read_info_step fuel offset r w info_bytes calls h = ground arith

  -- The loop reads the first `remaining` bytes of the words.
  pub read_info_lem :
      (ws : List ℕ) (fuel offset remaining : ℕ) (info_bytes : List ℕ) (calls : List Call)
      → remaining ≤ fuel
      → remaining ≤ 4 * length ws
      → Holds c mbox_offset offset ws
      → (read_info c fuel mbox_offset info_bytes offset remaining calls).0
        ≡ ok (info_bytes ++ take remaining (words_to_bytes ws))
  unfolding words_to_bytes
  read_info_lem ws fuel offset zero info_bytes calls hf hl hold =
      ap (λ x. x.0) (read_info_end fuel offset info_bytes calls)
      ∙ ap ok (sym (append-nil info_bytes))
  read_info_lem ws zero offset (suc r) info_bytes calls hf hl hold = absurd (omega arith)
  read_info_lem [] (suc fuel) offset (suc r) info_bytes calls hf hl hold = absurd (omega arith)
  read_info_lem (w ∷ ws) (suc fuel) offset (suc r) info_bytes calls hf hl (now, later) =
      let got = take (min (suc r) 4) (to_le_bytes w) in
      ap (λ x. x.0) (read_info_step fuel offset r w info_bytes calls (now calls))
      ∙ read_info_lem ws fuel (offset + 4) (suc r - 4) (info_bytes ++ got) _ (omega arith)
          (omega arith) later
      ∙ ap ok (
          append_assoc info_bytes got (take (suc r - 4) (words_to_bytes ws))
          ∙ ap (λ b. info_bytes ++ b) (take_word w (words_to_bytes ws) (suc r) (omega arith)))

  module _ (calls : List Call) where
    abbrev pub located_calls : List Call
    located_calls = (get_mailbox_offset c calls).1

    abbrev pub requested_calls : List Call
    requested_calls = (request_card_info c mbox_offset located_calls).1

    abbrev pub checked_calls : List Call
    checked_calls = (get_cms_reg c host_msg_error requested_calls).1

  -- What the mailbox protocol needs to come to the message: the mailbox is free and at this
  -- offset, the request goes through, the core reports no error, and the mailbox then starts
  -- with `header`.
  pub record Ready (calls : List Call) (header : ℕ) : Type 0 where
    pub located : (get_mailbox_offset c calls).0 ≡ ok mbox_offset
    pub requested : (request_card_info c mbox_offset (located_calls calls)).0 ≡ ok tt
    pub no_error : (get_cms_reg c host_msg_error (requested_calls calls)).0 ≡ ok 0
    pub headed : (c.based_ctrl_read_u32 mbox_offset (checked_calls calls)).0 ≡ ok header

  -- If the mailbox is ready and holds a message of items behind its header, whose length is in
  -- the header's low 12 bits, then `get_card_info` returns those items.
  pub get_card_info_lem :
      (calls : List Call) (header : ℕ) (ws : List ℕ) (items : List CardInfoItem)
      → Ready calls header
      → Holds c mbox_offset 4 ws
      → bit_and header 0xfff ≤ 4 * length ws
      → Message (take (bit_and header 0xfff) (words_to_bytes ws)) items
      → (get_card_info c calls).0 ≡ ok items
  unfolding get_card_info
  get_card_info_lem calls header ws items ready hold fits message =
      let len : ℕ = bit_and header 0xfff in
      let parsed : card_info_try_from (take len (words_to_bytes ws)) ≡ ok items =
        (card_info_try_from_iff (take len (words_to_bytes ws)) items).1 message in
      let last : List Call = (c.based_ctrl_read_u32 mbox_offset (checked_calls calls)).1 in
      let bytes = read_info_lem ws len 4 len [] last (omega arith) fits hold in
      rw (ready.located, ready.requested, ready.no_error, ready.headed, bytes, parsed) refl

mask_nonzero : (v : ℕ) → bit 5 v ≡ 1 → (bit_and v 32 == 0) ≡ false
mask_nonzero v busy = elim (Bool-cases (bit_and v 32 == 0)) [
  | inl none ↦
      let zero_mask : bit_and v 32 ≡ 0 = ground arith in
      let clear : bit 5 (bit_and v 32) ≡ 0 = ap (bit 5) zero_mask in
      absurd (omega (arith, bit-bit_and 5 v 32, clear))
  | inr some ↦ some
]

module _ {E : Type 0} (c : BasedCtrlOps E) where
  -- If the control register says that the mailbox is in use, then `get_card_info` fails with
  -- `MailboxNotAvailable` after that one read: it writes nothing and sends no request.
  get_card_info_busy :
      (calls : List Call) (v : ℕ)
      → (get_cms_control_reg c calls).0 ≡ ok v
      → bit 5 v ≡ 1
      → get_card_info c calls ≡ (err mailbox_not_available, (get_cms_control_reg c calls).1)
  unfolding get_card_info get_mailbox_offset
  get_card_info_busy calls v h busy =
      let in_use : (bit_and v 32 == 0) ≡ false = mask_nonzero v busy in ground arith
