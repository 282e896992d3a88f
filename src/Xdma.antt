-- ===== src/Xdma.antt =====
-- sw/rust/warpshell/src/xdma/mod.rs: control and DMA channels over the driver's device files, and the
-- interfaces of `Based` for a core at a base address. Addresses are `u64` sums in a release build,
-- which wrap round.
pub mod Error
pub mod Transport
pub mod Cells
pub mod Costs
use Prim.Native.String.{String}
use warpshell.Base.{ℕ, ◌+◌, ◌*◌, ◌^◌, List, ◌∷◌, Option, none, some}
use warpshell.Base.Bytes.{u64, to_le_bytes, from_le_bytes}
use warpshell.System.{
  File, Call, open_read_write, create, open_read, read_exact_at, write_all_at, IoResult, done,
  failed, Os,
}
use warpshell.Outcome.{Outcome, ok, err, panic, Exec, ◌>>=◌, pure, map_err}
use warpshell.Based.{BasedError, xdma_error, BasedCtrlOps, BasedDmaOps}
use Error.{
  XdmaError, ctrl_read_failed, ctrl_write_failed, dma_read_failed, dma_write_failed, dev_node,
}

pub record CtrlChannel : Type 0 where
  pub cdev : File

pub record DmaChannel : Type 0 where
  -- host to card, and card to host
  pub h2c_cdev : File
  pub c2h_cdev : File

-- `map_err` on the answer of a system call
unfoldable pub io_outcome : {E X A : Type 0} → (E → X) → IoResult E A → Outcome X A
io_outcome f (done a) = ok a
io_outcome f (failed e) = err (f e)

module _ {E : Type 0} (os : Os E) where
  unfoldable pub ctrl_read : CtrlChannel → ℕ → ℕ → Exec (XdmaError E) (List ℕ)
  unfolding io_outcome
  ctrl_read ch len offset calls = (
    io_outcome ctrl_read_failed (os.read calls ch.cdev len offset),
    read_exact_at ch.cdev len offset ∷ calls,
  )

  unfoldable pub ctrl_write : CtrlChannel → List ℕ → ℕ → Exec (XdmaError E) Unit
  unfolding io_outcome
  ctrl_write ch buf offset calls = (
    io_outcome ctrl_write_failed (os.written calls ch.cdev buf offset),
    write_all_at ch.cdev buf offset ∷ calls,
  )

  unfoldable pub dma_read : DmaChannel → ℕ → ℕ → Exec (XdmaError E) (List ℕ)
  unfolding io_outcome
  dma_read ch len offset calls = (
    io_outcome (dma_read_failed 0) (os.read calls ch.c2h_cdev len offset),
    read_exact_at ch.c2h_cdev len offset ∷ calls,
  )

  unfoldable pub dma_write : DmaChannel → List ℕ → ℕ → Exec (XdmaError E) Unit
  unfolding io_outcome
  dma_write ch buf offset calls = (
    io_outcome (dma_write_failed 0) (os.written calls ch.h2c_cdev buf offset),
    write_all_at ch.h2c_cdev buf offset ∷ calls,
  )

  -- `impl<T: GetCtrlChannel + BaseParam> BasedCtrlOps for T`
  unfoldable pub ctrl_ops : CtrlChannel → ℕ → BasedCtrlOps E
  unfolding ctrl_read ctrl_write
  ctrl_ops ch base = record {
    based_ctrl_read = λ len offset. map_err xdma_error (ctrl_read ch len (u64 (base + offset)));
    based_ctrl_write = λ buf offset. map_err xdma_error (ctrl_write ch buf (u64 (base + offset)));
    based_ctrl_read_u32 = λ offset. do
      data_bytes ← map_err xdma_error (ctrl_read ch 4 (u64 (base + offset)))
      pure (from_le_bytes data_bytes);
    based_ctrl_write_u32 = λ offset value.
        map_err xdma_error (ctrl_write ch (to_le_bytes value) (u64 (base + offset)));
  }

  -- `impl<T: GetDmaChannel + BaseParam> BasedDmaOps for T`
  unfoldable pub dma_ops : DmaChannel → ℕ → BasedDmaOps E
  unfolding dma_read dma_write
  dma_ops ch base = record {
    based_dma_read = λ len offset. map_err xdma_error (dma_read ch len (u64 (base + offset)));
    based_dma_write = λ buf offset. map_err xdma_error (dma_write ch buf (u64 (base + offset)));
  }

  abbrev open_with : Call → Exec (XdmaError E) File
  open_with call calls = (io_outcome dev_node (os.opened calls call), call ∷ calls)

-- `channel.get_or_init(|| c)` of a `OnceCell`: the first value stays.
unfoldable pub fill_once : {A : Type 0} → Option A → A → A
fill_once (some a) fresh = a
fill_once none fresh = fresh

pub record OnceCellCtrlChannel : Type 0 where
  pub cdev_path : String
  pub channel : Option CtrlChannel

pub record OnceCellDmaChannel : Type 0 where
  pub h2c_cdev_path : String
  pub c2h_cdev_path : String
  pub channel : Option DmaChannel

abbrev pub ctrl_channel : OnceCellCtrlChannel
ctrl_channel = record { cdev_path = "/dev/xdma0_user"; channel = none }

abbrev pub dma_channel0 : OnceCellDmaChannel
dma_channel0 = record {
  h2c_cdev_path = "/dev/xdma0_h2c_0";
  c2h_cdev_path = "/dev/xdma0_c2h_0";
  channel = none;
}

-- The result, and the cell afterwards.
module _ {E : Type 0} where
  unfoldable pub init_ctrl :
      OnceCellCtrlChannel
      → Outcome (XdmaError E) File
      → Outcome (XdmaError E) CtrlChannel × OnceCellCtrlChannel
  init_ctrl cell (ok cdev) =
      let ch = fill_once cell.channel (record { cdev = cdev }) in
      (ok ch, record cell { channel = some ch })
  init_ctrl cell (err e) = (err e, cell)
  init_ctrl cell panic = (panic, cell)

  unfoldable pub init_dma :
      OnceCellDmaChannel
      → Outcome (XdmaError E) DmaChannel
      → Outcome (XdmaError E) DmaChannel × OnceCellDmaChannel
  init_dma cell (ok fresh) =
      let ch = fill_once cell.channel fresh in (ok ch, record cell { channel = some ch })
  init_dma cell (err e) = (err e, cell)
  init_dma cell panic = (panic, cell)

module _ {E : Type 0} (os : Os E) where
  -- Opens the device file also when the cell is full; the cell's own channel is then returned.
  unfoldable pub ctrl_get_or_init :
      OnceCellCtrlChannel
      → List Call
      → Outcome (XdmaError E) CtrlChannel × OnceCellCtrlChannel × List Call
  unfolding io_outcome fill_once init_ctrl
  ctrl_get_or_init cell calls =
      let r = open_with os (open_read_write cell.cdev_path) calls in
      let filled = init_ctrl cell r.0 in (filled.0, filled.1, r.1)

  open_dma : OnceCellDmaChannel → Exec (XdmaError E) DmaChannel
  open_dma cell = do
    h2c ← open_with os (create cell.h2c_cdev_path)
    c2h ← open_with os (open_read cell.c2h_cdev_path)
    pure (record { h2c_cdev = h2c; c2h_cdev = c2h })

  unfoldable pub dma_get_or_init :
      OnceCellDmaChannel
      → List Call
      → Outcome (XdmaError E) DmaChannel × OnceCellDmaChannel × List Call
  unfolding io_outcome fill_once init_dma open_dma
  dma_get_or_init cell calls =
      let r = open_dma cell calls in let filled = init_dma cell r.0 in (filled.0, filled.1, r.1)
