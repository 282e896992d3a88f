-- ===== src/Shell/Channels.antt =====
-- The statics of sw/rust/warpshell/src/shells/xilinx_u55n_xdma_std.rs and the channels of shells.
use warpshell.Base.{List, some, ◌≡◌, refl, ap, ◌∙◌, arith}
use warpshell.System.{Call, Os}
use warpshell.Outcome.{Outcome, ok, err, panic}
use warpshell.Xdma.{CtrlChannel, DmaChannel, OnceCellCtrlChannel, ctrl_get_or_init, dma_get_or_init}
use warpshell.Xdma.Error.{XdmaError}
use warpshell.Xdma.Cells.{
  ctrl_get_or_init-ok, ctrl_get_or_init-some, dma_get_or_init-ok, dma_get_or_init-some,
}
use warpshell.Shell.{XilinxU55nXdmaStd, Statics, new, open_dma, with_channels}

module _ {E : Type 0} (os : Os E) where
  with_channels-ok :
      (ch : CtrlChannel) (r : Outcome (XdmaError E) DmaChannel) (sh : XilinxU55nXdmaStd)
      → with_channels ch r ≡ ok sh
      → (ch ≡ sh.ctrl_channel) × (r ≡ ok sh.dma_channel)
  unfolding with_channels
  with_channels-ok ch (ok dma) sh h = (ground arith, ground arith)
  with_channels-ok ch (err e) sh h = absurd (ground arith)
  with_channels-ok ch panic sh h = absurd (ground arith)

  -- The two cells are filled with the shell's channels.
  abbrev pub Filled : XilinxU55nXdmaStd → Statics → Type 0
  Filled sh s =
      (s.ctrl_cell.channel ≡ some sh.ctrl_channel) × (s.dma_cell.channel ≡ some sh.dma_channel)

  pub open_dma-ok :
      (s : Statics) (r : Outcome (XdmaError E) CtrlChannel) (cell : OnceCellCtrlChannel)
      (log : List Call) (sh : XilinxU55nXdmaStd)
      → (open_dma os s (r, cell, log)).0 ≡ ok sh
      → (r ≡ ok sh.ctrl_channel)
        × ((dma_get_or_init os s.dma_cell log).0 ≡ ok sh.dma_channel)
        × ((open_dma os s (r, cell, log)).1
            ≡ record { ctrl_cell = cell; dma_cell = (dma_get_or_init os s.dma_cell log).1 })
  open_dma-ok s (ok ch) cell log sh h =
      let (e, k) = with_channels-ok ch (dma_get_or_init os s.dma_cell log).0 sh h in
      (ap ok e, k, refl)
  open_dma-ok s (err e) cell log sh h = absurd (ground arith)
  open_dma-ok s panic cell log sh h = absurd (ground arith)

  pub new-Filled :
      (s : Statics) (calls : List Call) (sh : XilinxU55nXdmaStd)
      → (new os s calls).0 ≡ ok sh
      → Filled sh (new os s calls).1
  unfolding new
  new-Filled s calls sh h =
      let r = ctrl_get_or_init os s.ctrl_cell calls in
      let (e, k, after) = open_dma-ok s r.0 r.1 r.2 sh h in
      (
        ap (λ t. t.ctrl_cell.channel) after
            ∙ ctrl_get_or_init-ok os s.ctrl_cell calls sh.ctrl_channel e,
        ap (λ t. t.dma_cell.channel) after ∙ dma_get_or_init-ok os s.dma_cell r.2 sh.dma_channel k,
      )

  new-Filled-same :
      (s : Statics) (calls : List Call) (sh sh' : XilinxU55nXdmaStd)
      → Filled sh s
      → (new os s calls).0 ≡ ok sh'
      → sh' ≡ sh
  unfolding new
  new-Filled-same s calls sh sh' (c, d) h =
      let r = ctrl_get_or_init os s.ctrl_cell calls in
      let (e, k, after) = open_dma-ok s r.0 r.1 r.2 sh' h in
      let p = ctrl_get_or_init-some os s.ctrl_cell calls sh.ctrl_channel sh'.ctrl_channel c e in
      let q = dma_get_or_init-some os s.dma_cell r.2 sh.dma_channel sh'.dma_channel d k in
      ground arith

  -- A shell made from the statics that an earlier shell has left has the same channels, whatever
  -- has been called in between.
  new-new :
      (s : Statics) (calls later : List Call) (sh sh' : XilinxU55nXdmaStd)
      → (new os s calls).0 ≡ ok sh
      → (new os (new os s calls).1 later).0 ≡ ok sh'
      → sh' ≡ sh
  new-new s calls later sh sh' h k =
      new-Filled-same (new os s calls).1 later sh sh' (new-Filled s calls sh h) k
