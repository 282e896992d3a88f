-- ===== src/Shell/Race.antt =====
-- Threads that make shells at the same time, by `XilinxU55nXdmaStd::new` of
-- sw/rust/warpshell/src/shells/xilinx_u55n_xdma_std.rs, from the same statics. Opening files and
-- filling a cell are steps of their own, since `OnceCell` lets one thread at a time in.
pub mod Shared
pub mod New
use warpshell.Base.{
  ℕ, List, ◌∷◌, Option, none, some, Bool, ◌==◌, if◌then◌else◌, ◌≡◌, refl, sym, ap, subst, ◌∙◌,
  arith, inl, inr, Bool-cases,
}
use warpshell.System.{File, Call, open_read, open_read_write, create, IoResult-cases, Os}
use warpshell.Outcome.{Outcome, ok, ok-injective, err, panic}
use warpshell.Xdma.{
  ctrl_get_or_init, dma_get_or_init, CtrlChannel, DmaChannel, OnceCellCtrlChannel,
  OnceCellDmaChannel, init_ctrl, init_dma, fill_once,
}
use warpshell.Shell.{XilinxU55nXdmaStd, Statics, ShellError, new, with_channels}

-- Where a thread stands in its calls of `new`
pub data Thread : Type 0 where
  idle : Thread
  opened_ctrl : File → Thread
  has_ctrl : CtrlChannel → Thread
  opened_dma : CtrlChannel → DmaChannel → Thread
  holding : XilinxU55nXdmaStd → Thread

pub record World : Type 0 where
  pub statics : Statics
  pub thread : ℕ → Thread

abbrev pub update : (ℕ → Thread) → ℕ → Thread → ℕ → Thread
update threads i t j = if j == i then t else threads j

module _ (E : Type 0) where
  pub data Step (w : World) : World → Type 0 where
    open_ctrl :
        (i : ℕ) (cdev : File)
        → w.thread i ≡ idle
        → Step w (record w { thread = update w.thread i (opened_ctrl cdev) })
    enter_ctrl :
        (i : ℕ) (cdev : File) (ch : CtrlChannel)
        → w.thread i ≡ opened_ctrl cdev
        → (init_ctrl {E = E} w.statics.ctrl_cell (ok cdev)).0 ≡ ok ch
        → Step w (record {
          statics = record {
            ctrl_cell = (init_ctrl {E = E} w.statics.ctrl_cell (ok cdev)).1;
            dma_cell = w.statics.dma_cell;
          };
          thread = update w.thread i (has_ctrl ch);
        })
    open_dma :
        (i : ℕ) (ch : CtrlChannel) (h2c c2h : File)
        → w.thread i ≡ has_ctrl ch
        → Step w (record w {
          thread = update w.thread i (opened_dma ch (record { h2c_cdev = h2c; c2h_cdev = c2h }));
        })
    enter_dma :
        (i : ℕ) (ch : CtrlChannel) (own dma : DmaChannel)
        → w.thread i ≡ opened_dma ch own
        → (init_dma {E = E} w.statics.dma_cell (ok own)).0 ≡ ok dma
        → Step w (record {
          statics = record {
            ctrl_cell = w.statics.ctrl_cell;
            dma_cell = (init_dma {E = E} w.statics.dma_cell (ok own)).1;
          };
          thread = update w.thread i (holding (record { ctrl_channel = ch; dma_channel = dma }));
        })
    again :
        (i : ℕ) (sh : XilinxU55nXdmaStd)
        → w.thread i ≡ holding sh
        → Step w (record w { thread = update w.thread i idle })

  pub data Reach (w : World) : World → Type 0 where
    here : Reach w w
    next : {u v : World} → Reach w u → Step u v → Reach w v
