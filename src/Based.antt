-- ===== src/Based.antt =====
-- sw/rust/warpshell/src/lib.rs: the errors, the interfaces to memory-mapped cores, which the
-- cores take as a parameter, and the polling that every control interface has.
pub mod Poll
pub mod Storage
use warpshell.Base.{
  ℕ, zero, suc, ◌+◌, List, ◌∷◌, Bool, true, false, Option, none, some, bit_and, ◌==◌, if◌then◌else◌,
}
use warpshell.System.{Call, sleep}
use warpshell.Outcome.{Outcome, ok, err, panic, Exec, ◌>>=◌, ◌>>◌, pure, raise}
use warpshell.Xdma.Error.{XdmaError}

pub data BasedError (E : Type 0) : Type 0 where
  xdma_error : XdmaError E → BasedError E
  -- offset, mask, expected
  reg_mask_not_as_expected : ℕ → ℕ → ℕ → BasedError E

-- The required methods of the trait `BasedCtrlOps`. A read is given the length of the buffer that
-- it fills, and returns the buffer.
pub record BasedCtrlOps (E : Type 0) : Type 0 where
  pub based_ctrl_read : ℕ → ℕ → Exec (BasedError E) (List ℕ)
  pub based_ctrl_write : List ℕ → ℕ → Exec (BasedError E) Unit
  pub based_ctrl_read_u32 : ℕ → Exec (BasedError E) ℕ
  pub based_ctrl_write_u32 : ℕ → ℕ → Exec (BasedError E) Unit

-- The trait `BasedDmaOps`, on the bytes of a `DmaBuffer`.
pub record BasedDmaOps (E : Type 0) : Type 0 where
  pub based_dma_read : ℕ → ℕ → Exec (BasedError E) (List ℕ)
  pub based_dma_write : List ℕ → ℕ → Exec (BasedError E) Unit

unfoldable pub thread_sleep : {X : Type 0} → ℕ → Exec X Unit
thread_sleep duration calls = (ok tt, sleep duration ∷ calls)

-- `position` of a `repeat_with(probe).take(n)`: the index, counted from `i`, of the first probe that
-- answers `true`.
unfoldable pub position : {X : Type 0} → Exec X Bool → ℕ → ℕ → Exec X (Option ℕ)
position probe zero i = pure none
position probe (suc n) i = do
  found ← probe
  elim found [ true ↦ pure (some i) | false ↦ position probe n (i + 1) ]

-- `ready.map(|ready| ready & mask) == Some(expected)` for the `.ok()` of a read: a failed read
-- counts as not ready.
unfoldable pub is_expected : {X : Type 0} → ℕ → ℕ → Outcome X ℕ → Outcome X Bool
is_expected mask expected (ok ready) = ok (bit_and ready mask == expected)
is_expected mask expected (err e) = ok false
is_expected mask expected panic = panic

module _ {E : Type 0} (c : BasedCtrlOps E) where
  unfoldable pub probe : ℕ → ℕ → ℕ → Exec (BasedError E) Bool
  probe offset mask expected calls = (
    is_expected mask expected (c.based_ctrl_read_u32 offset calls).0,
    (c.based_ctrl_read_u32 offset calls).1,
  )

  unfoldable pub poll_reg_mask : ℕ → ℕ → ℕ → ℕ → Exec (BasedError E) Unit
  poll_reg_mask offset mask expected n = do
    found ← position (probe offset mask expected) n 0
    elim found [ some i ↦ pure tt | none ↦ raise (reg_mask_not_as_expected offset mask expected) ]

  unfoldable pub poll_reg_mask_sleep : ℕ → ℕ → ℕ → ℕ → ℕ → Exec (BasedError E) ℕ
  poll_reg_mask_sleep offset mask expected n duration = do
    found ← position (thread_sleep duration >> probe offset mask expected) n 0
    elim found [
      | some i ↦ pure (i + 1)
      | none ↦ raise (reg_mask_not_as_expected offset mask expected)
    ]

  unfoldable pub poll_reg_mask_clear : ℕ → ℕ → ℕ → Exec (BasedError E) Unit
  poll_reg_mask_clear offset mask n = poll_reg_mask offset mask 0 n

  unfoldable pub poll_reg_mask_set : ℕ → ℕ → ℕ → Exec (BasedError E) Unit
  poll_reg_mask_set offset mask n = poll_reg_mask offset mask mask n
