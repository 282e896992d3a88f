-- ===== src/DfxDecoupler.antt =====
-- sw/rust/warpshell/src/cores/dfx_decoupler.rs: the trait `DfxDecouplerOps`, over any control
-- interface.
pub mod Laws
use warpshell.Base.{ℕ, Bool, bit_and, bit_or, bit_xor, ◌==◌}
use warpshell.Outcome.{Exec, ◌>>=◌, pure, map_err}
use warpshell.Based.{BasedError, BasedCtrlOps}

pub data DfxDecouplerError (E : Type 0) : Type 0 where
  based_error : BasedError E → DfxDecouplerError E

pub data DfxDecouplerReg : Type 0 where
  control : DfxDecouplerReg

-- `reg as u64`
unfoldable pub dfx_decoupler_offset : DfxDecouplerReg → ℕ
dfx_decoupler_offset control = 0

-- `ControlRegBit::En`
abbrev pub en : ℕ
en = 1

module _ {E : Type 0} (c : BasedCtrlOps E) where
  -- Checks whether decoupling is enabled.
  unfoldable pub is_enabled : Exec (DfxDecouplerError E) Bool
  unfolding dfx_decoupler_offset
  is_enabled = do
    v ← map_err based_error (c.based_ctrl_read_u32 (dfx_decoupler_offset control))
    pure (bit_and v en == en)

  -- Enables decoupling.
  unfoldable pub enable : Exec (DfxDecouplerError E) Unit
  unfolding dfx_decoupler_offset
  enable = do
    v ← map_err based_error (c.based_ctrl_read_u32 (dfx_decoupler_offset control))
    map_err based_error (c.based_ctrl_write_u32 (dfx_decoupler_offset control) (bit_or v en))

  -- Disables decoupling.
  unfoldable pub disable : Exec (DfxDecouplerError E) Unit
  unfolding dfx_decoupler_offset
  disable = do
    v ← map_err based_error (c.based_ctrl_read_u32 (dfx_decoupler_offset control))
    map_err based_error
        (c.based_ctrl_write_u32 (dfx_decoupler_offset control) (bit_xor (bit_or v en) en))
