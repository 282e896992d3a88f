-- ===== src/DfxDecoupler/Laws.antt =====
-- The operations of sw/rust/warpshell/src/cores/dfx_decoupler.rs and the control register.
use warpshell.Base.{
  ℕ, suc, ◌+◌, ◌*◌, ◌/◌, ◌^◌, ◌<◌, List, true, false, ◌≡◌, ap, ◌∙◌, arith, inl, inr, bit_and,
  bit_or, bit_xor, ◌==◌,
}
use warpshell.Base.Bits.{bit, bit_or-one, bit_and-one, bit_xor-bit_or_one}
use warpshell.System.{Call}
use warpshell.Outcome.{ok, Outcome-cases, map_err}
use warpshell.Based.{BasedCtrlOps}
use warpshell.Based.Storage.{ReadsWords, IsStorage}
use warpshell.DfxDecoupler.{en, based_error, is_enabled, enable, disable}

-- `w` is `v` with the lowest bit replaced by `b`.
pub record WithLowest (b v w : ℕ) : Type 0 where
  pub lowest : bit 0 w ≡ b
  pub others : (k : ℕ) → bit (suc k) w ≡ bit (suc k) v

WithLowest-halves : (b v w : ℕ) → b < 2 → w ≡ v / 2 * 2 + b → WithLowest b v w
WithLowest-halves b v w h e = record {
  lowest = omega arith;
  others = λ k. ap (bit k) (omega arith);
}

set_one : (v : ℕ) → WithLowest 1 v (bit_or v 1)
set_one v = WithLowest-halves 1 v (bit_or v 1) (omega arith) (bit_or-one v)

set_zero : (v : ℕ) → WithLowest 0 v (bit_xor (bit_or v 1) 1)
set_zero v =
    WithLowest-halves 0 v (bit_xor (bit_or v 1) 1) (omega arith)
      (bit_xor-bit_or_one v ∙ omega arith)

abbrev after_read : {E : Type 0} → BasedCtrlOps E → List Call → List Call
after_read c calls = (c.based_ctrl_read_u32 0 calls).1

module _ {E : Type 0} (c : BasedCtrlOps E) (v : ℕ) (calls : List Call) where
  enable_lem :
      (c.based_ctrl_read_u32 0 calls).0 ≡ ok v
      → (w : ℕ) × WithLowest 1 v w
        × (enable c calls ≡ map_err based_error (c.based_ctrl_write_u32 0 w) (after_read c calls))
  unfolding enable
  enable_lem h = (bit_or v en, set_one v, ground arith)

  disable_lem :
      (c.based_ctrl_read_u32 0 calls).0 ≡ ok v
      → (w : ℕ) × WithLowest 0 v w
        × (disable c calls ≡ map_err based_error (c.based_ctrl_write_u32 0 w) (after_read c calls))
  unfolding disable
  disable_lem h = (bit_xor (bit_or v en) en, set_zero v, ground arith)

  -- If the control register reads as `v`, then enabling goes on to write to it exactly `v` with the
  -- lowest bit set, and disabling exactly `v` with the lowest bit cleared, all other bits kept; and
  -- each returns what its write returns.
  pub set_lowest :
      (c.based_ctrl_read_u32 0 calls).0 ≡ ok v
      → ((w : ℕ) × WithLowest 1 v w
          × (enable c calls
              ≡ map_err based_error (c.based_ctrl_write_u32 0 w) (after_read c calls)))
        × ((w : ℕ) × WithLowest 0 v w
            × (disable c calls
                ≡ map_err based_error (c.based_ctrl_write_u32 0 w) (after_read c calls)))
  set_lowest h = (enable_lem h, disable_lem h)

module _ {E : Type 0} (c : BasedCtrlOps E) (words : ReadsWords c) (reg : IsStorage c 0) where
  reads_back :
      (w : ℕ) (calls : List Call)
      → w < 2 ^ 32
      → (c.based_ctrl_write_u32 0 w calls).0 ≡ ok tt
      → (is_enabled c (c.based_ctrl_write_u32 0 w calls).1).0 ≡ ok (bit_and w 1 == 1)
  unfolding is_enabled
  reads_back w calls h done = ground (arith, reg.stored w calls h done)

  is_enabled-enable :
      (calls : List Call)
      → (enable c calls).0 ≡ ok tt
      → (is_enabled c (enable c calls).1).0 ≡ ok true
  unfolding enable
  is_enabled-enable calls h = elim (Outcome-cases (c.based_ctrl_read_u32 0 calls).0) [
    | inl (v, e) ↦
        let small : bit_or v 1 < 2 ^ 32 = omega (arith, bit_or-one v, words.is_word 0 v calls e) in
        let wrote : (c.based_ctrl_write_u32 0 (bit_or v 1) (after_read c calls)).0 ≡ ok tt =
          ground arith in
        let odd : (bit_and (bit_or v 1) 1 == 1) ≡ true =
          ground (arith, bit_and-one (bit_or v 1), bit_or-one v) in
        rw e (reads_back (bit_or v 1) (after_read c calls) small wrote ∙ ap ok odd)
    | inr (inl (x, e)) ↦ absurd (ground arith)
    | inr (inr e) ↦ absurd (ground arith)
  ]

  is_enabled-disable :
      (calls : List Call)
      → (disable c calls).0 ≡ ok tt
      → (is_enabled c (disable c calls).1).0 ≡ ok false
  unfolding disable
  is_enabled-disable calls h = elim (Outcome-cases (c.based_ctrl_read_u32 0 calls).0) [
    | inl (v, e) ↦
        let w : ℕ = bit_xor (bit_or v 1) 1 in
        let small : w < 2 ^ 32 = omega (arith, bit_xor-bit_or_one v, words.is_word 0 v calls e) in
        let wrote : (c.based_ctrl_write_u32 0 w (after_read c calls)).0 ≡ ok tt = ground arith in
        let even : (bit_and w 1 == 1) ≡ false =
          ground (arith, bit_and-one w, bit_xor-bit_or_one v) in
        rw e (reads_back w (after_read c calls) small wrote ∙ ap ok even)
    | inr (inl (x, e)) ↦ absurd (ground arith)
    | inr (inr e) ↦ absurd (ground arith)
  ]

  -- Where registers read as words and the control register is storage, `is_enabled` returns true
  -- after an `enable` that succeeds, and false after a `disable` that succeeds.
  pub is_enabled_lem :
      (calls later : List Call)
      → (enable c calls).0 ≡ ok tt
      → (disable c later).0 ≡ ok tt
      → ((is_enabled c (enable c calls).1).0 ≡ ok true)
        × ((is_enabled c (disable c later).1).0 ≡ ok false)
  is_enabled_lem calls later h k = (is_enabled-enable calls h, is_enabled-disable later k)
