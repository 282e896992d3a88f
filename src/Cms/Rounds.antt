-- ===== src/Cms/Rounds.antt =====
-- The loop of `get_card_info` in sw/rust/warpshell/src/cores/cms.rs, round by round.
use warpshell.Base.{
  ℕ, zero, suc, ◌+◌, ◌-◌, ◌*◌, ◌≤◌, ◌<◌, min, List, ◌++◌, ◌≡◌, refl, ap, ◌∙◌, ◌⊎◌, inl, inr, arith,
  length, length-append, length-take, take,
}
use warpshell.Base.Bytes.{u64, to_le_bytes}
use warpshell.System.{Call}
use warpshell.Outcome.{ok, err}
use warpshell.Based.{BasedError, BasedCtrlOps}
use warpshell.Based.Poll.{Answers}
use warpshell.Cms.{based_error, read_info}
use warpshell.Cms.Mailbox.{read_info_step}

module _ {E : Type 0} (c : BasedCtrlOps E) (total : Answers c) (mbox_offset : ℕ) where
  -- The log after `k` words have been read from `offset` on
  abbrev pub word_reads : ℕ → ℕ → List Call → List Call
  word_reads zero offset calls = calls
  word_reads (suc k) offset calls =
      word_reads k (offset + 4) (c.based_ctrl_read_u32 (u64 (mbox_offset + offset)) calls).1

  longer :
      (info : List ℕ) (w n : ℕ)
      → length (info ++ take (min n 4) (to_le_bytes w)) ≡ length info + min n 4
  longer info w n = omega (
    arith,
    length-append info (take (min n 4) (to_le_bytes w)),
    length-take (min n 4) (to_le_bytes w),
  )

  read_info_fails :
      (fuel offset r : ℕ) (info : List ℕ) (calls : List Call) (x : BasedError E)
      → (c.based_ctrl_read_u32 (u64 (mbox_offset + offset)) calls).0 ≡ err x
      → read_info c (suc fuel) mbox_offset info offset (suc r) calls
        ≡ (err (based_error x), (c.based_ctrl_read_u32 (u64 (mbox_offset + offset)) calls).1)
  unfolding read_info
  read_info_fails fuel offset r info calls x h = ground arith

  -- On an interface that always answers, the loop with `remaining` bytes to go ends for any fuel of a
  -- quarter of that and more. It has then either read the fewest words that hold so many bytes, one
  -- after the other, and returns exactly that many bytes more than it had before; or a read has failed,
  -- and it returns that error, with no read behind it.
  pub read_info_rounds :
      (fuel offset remaining : ℕ) (info : List ℕ) (calls : List Call)
      → remaining ≤ 4 * fuel
      → let run = read_info c fuel mbox_offset info offset remaining calls in
        (k : ℕ) × (4 * k < remaining + 4)
        × (run.1 ≡ word_reads k offset calls)
        × (((bytes : List ℕ) × (run.0 ≡ ok bytes)
              × (remaining ≤ 4 * k)
              × (length bytes ≡ length info + remaining))
            ⊎ ((j : ℕ) × (x : BasedError E) × (k ≡ suc j)
                × ((c.based_ctrl_read_u32
                      (u64 (mbox_offset + (offset + 4 * j)))
                      (word_reads j offset calls)).0
                    ≡ err x)
                × (run.0 ≡ err (based_error x))))
  unfolding read_info
  read_info_rounds zero offset zero info calls h =
      (0, omega arith, refl, inl (info, refl, omega arith, omega arith))
  read_info_rounds zero offset (suc r) info calls h = absurd (omega arith)
  read_info_rounds (suc fuel) offset zero info calls h =
      (0, omega arith, refl, inl (info, refl, omega arith, omega arith))
  read_info_rounds (suc fuel) offset (suc r) info calls h =
      elim (total.answers (u64 (mbox_offset + offset)) calls) [
        | inl (w, e) ↦
            let more : List ℕ = info ++ take (min (suc r) 4) (to_le_bytes w) in
            let step = read_info_step c mbox_offset fuel offset r w info calls e in
            let (k, few, log, ends) =
              read_info_rounds fuel (offset + 4) (suc r - 4) more
                (c.based_ctrl_read_u32 (u64 (mbox_offset + offset)) calls).1 (omega arith) in
            (
              suc k,
              omega arith,
              ap (λ p. p.1) step ∙ log,
              elim ends [
                | inl (bytes, got, enough, len) ↦ inl (
                  bytes,
                  ap (λ p. p.0) step ∙ got,
                  omega arith,
                  omega (arith, len, longer info w (suc r)),
                )
                | inr (j, x, last, failed, bad) ↦ inr (
                  suc j,
                  x,
                  ap suc last,
                  ap
                        (λ n.
                          (c.based_ctrl_read_u32 (u64 (mbox_offset + n))
                            (word_reads (suc j) offset calls)).0)
                        (further j)
                      ∙ failed,
                  ap (λ p. p.0) step ∙ bad,
                )
              ],
            )
        | inr (x, e) ↦
            let step = read_info_fails fuel offset r info calls x e in
            (
              1,
              omega arith,
              ap (λ p. p.1) step,
              inr (
                0,
                x,
                refl,
                ap (λ n. (c.based_ctrl_read_u32 (u64 (mbox_offset + n)) calls).0) here ∙ e,
                ap (λ p. p.0) step,
              ),
            )
      ]
    where
      here : offset + 4 * 0 ≡ offset
      here = omega arith

      further : (j : ℕ) → offset + 4 * suc j ≡ offset + 4 + 4 * j
      further j = omega arith
