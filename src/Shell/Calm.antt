-- ===== src/Shell/Calm.antt =====
-- The operations of sw/rust/warpshell/src/shells/xilinx_u55n_xdma_std.rs that cannot panic.
use warpshell.Base.{ℕ, List, ◌∷◌, Bool, ◌≢◌, refl, ap, arith, inl, inr}
use warpshell.System.{Call, open_read, open_read_write, create, IoResult-cases, Os}
use warpshell.Outcome.{Outcome, ok, err, panic, Calm, Calm-map_err}
use warpshell.Xdma.{
  CtrlChannel, DmaChannel, OnceCellCtrlChannel, OnceCellDmaChannel, ctrl_get_or_init,
  dma_get_or_init,
}
use warpshell.Cms
use warpshell.Xdma.Error.{XdmaError}
use warpshell.Cms.{get_cms_reg}
use warpshell.Cms.Calm
use warpshell.Shell.{
  base_addr, init, new, with_channels, open_dma, XilinxU55nXdmaStd, Statics, program_user_image,
  cms, cms_core, on_ctrl,
}
use warpshell.Shell.Phases.Run.{finished, failed as failed_in, program_user_image-Runs}

module _ {E : Type 0} (os : Os E) where
  pub Calm-program_user_image :
      (sh : XilinxU55nXdmaStd) (debug : Bool) (image : List ℕ)
      → Calm (program_user_image os sh debug image)
  Calm-program_user_image sh debug image s h =
      let (p, log, reach, ends) = program_user_image-Runs os sh debug image s in
      elim ends [
        | finished e run ↦ absurd (cc (ap (λ r. r.0) run, h))
        | failed_in e stuck run ↦ absurd (cc (ap (λ r. r.0) run, h))
      ]

  pub Calm-init : (sh : XilinxU55nXdmaStd) → Calm (init os sh)
  unfolding init base_addr
  Calm-init sh =
      Calm-map_err cms (Cms.init (on_ctrl os sh cms_core))
        (Cms.Calm.Calm-init os sh.ctrl_channel 0x0400_0000)

  Calm-ctrl :
      (cell : OnceCellCtrlChannel) (calls : List Call) → (ctrl_get_or_init os cell calls).0 ≢ panic
  unfolding ctrl_get_or_init
  Calm-ctrl cell calls h =
      elim (IoResult-cases (os.opened calls (open_read_write cell.cdev_path))) [
        | inl (f, e) ↦ absurd (ground arith)
        | inr (x, e) ↦ absurd (ground arith)
      ]

  Calm-dma :
      (cell : OnceCellDmaChannel) (calls : List Call) → (dma_get_or_init os cell calls).0 ≢ panic
  unfolding dma_get_or_init
  Calm-dma cell calls h = elim (IoResult-cases (os.opened calls (create cell.h2c_cdev_path))) [
    | inl (f, e) ↦
        elim (IoResult-cases
          (os.opened (create cell.h2c_cdev_path ∷ calls) (open_read cell.c2h_cdev_path))) [
            | inl (g, k) ↦ absurd (ground arith)
            | inr (x, k) ↦ absurd (ground arith)
          ]
    | inr (x, e) ↦ absurd (ground arith)
  ]

  Calm-with_channels :
      (ch : CtrlChannel) (r : Outcome (XdmaError E) DmaChannel)
      → r ≢ panic
      → with_channels ch r ≢ panic
  unfolding with_channels
  Calm-with_channels ch (ok dma) h k = absurd (cc k)
  Calm-with_channels ch (err e) h k = absurd (cc k)
  Calm-with_channels ch panic h k = absurd (h refl)

  Calm-open_dma :
      (s : Statics) (r : Outcome (XdmaError E) CtrlChannel) (cell : OnceCellCtrlChannel)
      (log : List Call)
      → r ≢ panic
      → (open_dma os s (r, cell, log)).0 ≢ panic
  Calm-open_dma s (ok ch) cell log h =
      Calm-with_channels ch (dma_get_or_init os s.dma_cell log).0 (Calm-dma s.dma_cell log)
  Calm-open_dma s (err e) cell log h = λ k. absurd (cc k)
  Calm-open_dma s panic cell log h = absurd (h refl)

  pub Calm-new : (s : Statics) (calls : List Call) → (new os s calls).0 ≢ panic
  unfolding new
  Calm-new s calls =
      let r = ctrl_get_or_init os s.ctrl_cell calls in
      Calm-open_dma s r.0 r.1 r.2 (Calm-ctrl s.ctrl_cell calls)
