-- ===== src/Xdma/Cells.antt =====
-- The once-cells of sw/rust/warpshell/src/xdma/mod.rs.
use warpshell.Base.{List, some, ◌≡◌, arith}
use warpshell.System.{Call}
use warpshell.Outcome.{Outcome, ok, err, panic}
use warpshell.Xdma.{
  CtrlChannel, DmaChannel, OnceCellCtrlChannel, OnceCellDmaChannel, ctrl_get_or_init,
  dma_get_or_init, init_ctrl, init_dma, fill_once,
}
use warpshell.Xdma.Error.{XdmaError}
use warpshell.System.{File, Os}

module _ {E : Type 0} where
  init_ctrl-ok :
      (cell : OnceCellCtrlChannel) (r : Outcome (XdmaError E) File) (ch : CtrlChannel)
      → (init_ctrl cell r).0 ≡ ok ch
      → (init_ctrl cell r).1.channel ≡ some ch
  unfolding init_ctrl
  init_ctrl-ok cell (ok cdev) ch h = ground arith
  init_ctrl-ok cell (err e) ch h = absurd (ground arith)
  init_ctrl-ok cell panic ch h = absurd (ground arith)

  init_ctrl-some :
      (cell : OnceCellCtrlChannel) (r : Outcome (XdmaError E) File) (ch ch' : CtrlChannel)
      → cell.channel ≡ some ch
      → (init_ctrl cell r).0 ≡ ok ch'
      → ch' ≡ ch
  unfolding init_ctrl fill_once
  init_ctrl-some cell (ok cdev) ch ch' e h = ground arith
  init_ctrl-some cell (err x) ch ch' e h = absurd (ground arith)
  init_ctrl-some cell panic ch ch' e h = absurd (ground arith)

  init_dma-ok :
      (cell : OnceCellDmaChannel) (r : Outcome (XdmaError E) DmaChannel) (ch : DmaChannel)
      → (init_dma cell r).0 ≡ ok ch
      → (init_dma cell r).1.channel ≡ some ch
  unfolding init_dma
  init_dma-ok cell (ok cdev) ch h = ground arith
  init_dma-ok cell (err e) ch h = absurd (ground arith)
  init_dma-ok cell panic ch h = absurd (ground arith)

  init_dma-some :
      (cell : OnceCellDmaChannel) (r : Outcome (XdmaError E) DmaChannel) (ch ch' : DmaChannel)
      → cell.channel ≡ some ch
      → (init_dma cell r).0 ≡ ok ch'
      → ch' ≡ ch
  unfolding init_dma fill_once
  init_dma-some cell (ok cdev) ch ch' e h = ground arith
  init_dma-some cell (err x) ch ch' e h = absurd (ground arith)
  init_dma-some cell panic ch ch' e h = absurd (ground arith)

module _ {E : Type 0} (os : Os E) where
  pub ctrl_get_or_init-ok :
      (cell : OnceCellCtrlChannel) (calls : List Call) (ch : CtrlChannel)
      → (ctrl_get_or_init os cell calls).0 ≡ ok ch
      → (ctrl_get_or_init os cell calls).1.channel ≡ some ch
  unfolding ctrl_get_or_init
  ctrl_get_or_init-ok cell calls ch h = init_ctrl-ok cell _ ch h

  pub ctrl_get_or_init-some :
      (cell : OnceCellCtrlChannel) (calls : List Call) (ch ch' : CtrlChannel)
      → cell.channel ≡ some ch
      → (ctrl_get_or_init os cell calls).0 ≡ ok ch'
      → ch' ≡ ch
  unfolding ctrl_get_or_init
  ctrl_get_or_init-some cell calls ch ch' e h = init_ctrl-some cell _ ch ch' e h

  pub dma_get_or_init-ok :
      (cell : OnceCellDmaChannel) (calls : List Call) (ch : DmaChannel)
      → (dma_get_or_init os cell calls).0 ≡ ok ch
      → (dma_get_or_init os cell calls).1.channel ≡ some ch
  unfolding dma_get_or_init
  dma_get_or_init-ok cell calls ch h = init_dma-ok cell _ ch h

  pub dma_get_or_init-some :
      (cell : OnceCellDmaChannel) (calls : List Call) (ch ch' : DmaChannel)
      → cell.channel ≡ some ch
      → (dma_get_or_init os cell calls).0 ≡ ok ch'
      → ch' ≡ ch
  unfolding dma_get_or_init
  dma_get_or_init-some cell calls ch ch' e h = init_dma-some cell _ ch ch' e h
