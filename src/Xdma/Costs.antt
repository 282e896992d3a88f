-- ===== src/Xdma/Costs.antt =====
-- The system calls of the control and DMA interfaces of sw/rust/warpshell/src/xdma/mod.rs.
use native.Mathlib.Nat.{mul-le-mul_right}
use warpshell.Base.{ℕ, zero, suc, ◌+◌, ◌*◌, List, ◌≡◌, arith, length}
use warpshell.System.{Call, Os}
use warpshell.Outcome.Costs.{slept, Costs}
use warpshell.Based.{poll_reg_mask_sleep}
use warpshell.Xdma.{CtrlChannel, DmaChannel, ctrl_ops, dma_ops}
use warpshell.Xdma.Transport.{polls, poll_calls, read_u32_calls, write_u32_calls}

module _ {E : Type 0} (os : Os E) (ch : CtrlChannel) (base : ℕ) where
  pub Costs-read_u32 : (offset : ℕ) → Costs 1 0 ((ctrl_ops os ch base).based_ctrl_read_u32 offset)
  Costs-read_u32 offset = record {
    calls = λ s. rw (read_u32_calls os ch base offset s) (omega arith);
    time = λ s. rw (read_u32_calls os ch base offset s) (omega arith);
  }

  pub Costs-write_u32 :
      (offset value : ℕ) → Costs 1 0 ((ctrl_ops os ch base).based_ctrl_write_u32 offset value)
  Costs-write_u32 offset value = record {
    calls = λ s. rw (write_u32_calls os ch base offset value s) (omega arith);
    time = λ s. rw (write_u32_calls os ch base offset value s) (omega arith);
  }

  length-polls :
      (k offset duration : ℕ) (calls : List Call)
      → length (polls os ch base k offset duration calls) ≡ 2 * k + length calls
  length-polls zero offset duration calls = omega arith
  length-polls (suc k) offset duration calls = omega (arith, length-polls k offset duration _)

  slept-polls :
      (k offset duration : ℕ) (calls : List Call)
      → slept (polls os ch base k offset duration calls) ≡ k * duration + slept calls
  slept-polls zero offset duration calls = omega arith
  slept-polls (suc k) offset duration calls = omega (arith, slept-polls k offset duration _)

  pub Costs-poll :
      (offset mask expected n duration : ℕ)
      → Costs
          (2 * n)
          (n * duration)
          (poll_reg_mask_sleep (ctrl_ops os ch base) offset mask expected n duration)
  Costs-poll offset mask expected n duration = record {
    calls = λ s.
        let (k, le, e, t) = poll_calls os ch base offset mask expected n duration s in
        rw e (omega (arith, length-polls k offset duration s));
    time = λ s.
        let (k, le, e, t) = poll_calls os ch base offset mask expected n duration s in
        rw e (omega (arith, slept-polls k offset duration s, mul-le-mul_right duration le));
  }

module _ {E : Type 0} (os : Os E) (ch : DmaChannel) (base : ℕ) where
  pub Costs-dma_write :
      (bytes : List ℕ) (offset : ℕ) → Costs 1 0 ((dma_ops os ch base).based_dma_write bytes offset)
  unfolding dma_ops
  Costs-dma_write bytes offset = record { calls = λ s. omega arith; time = λ s. omega arith }
