-- ===== src/Shell/Race/New.antt =====
-- `XilinxU55nXdmaStd::new` of sw/rust/warpshell/src/shells/xilinx_u55n_xdma_std.rs as steps of one
-- thread.
use warpshell.Base.{ℕ, List, ◌∷◌, ◌≡◌, refl, ap, arith, inl, inr}
use warpshell.System.{File, Call, open_read, open_read_write, create, IoResult-cases, Os}
use warpshell.Outcome.{Outcome, ok, ok-injective}
use warpshell.Xdma.{ctrl_get_or_init, dma_get_or_init, CtrlChannel, init_ctrl, init_dma, fill_once}
use warpshell.Shell.{XilinxU55nXdmaStd, Statics, ShellError, new, with_channels}
use warpshell.Shell.Race.{
  Thread, idle, opened_ctrl, has_ctrl, opened_dma, holding, World, update, open_ctrl, enter_ctrl,
  open_dma, enter_dma, Reach, here, next,
}

module _ (E : Type 0) where
  -- `new` by itself, with success, takes four steps of a thread.
  pub new-Reach :
      (os : Os E) (s : Statics) (calls : List Call) (sh : XilinxU55nXdmaStd)
      → (new os s calls).0 ≡ ok sh
      → (v : World) × Reach E (record { statics = s; thread = λ k. idle }) v
        × (v.statics ≡ (new os s calls).1)
        × (v.thread 0 ≡ holding sh)
  unfolding new with_channels ctrl_get_or_init dma_get_or_init init_ctrl init_dma
  new-Reach os s calls sh h =
      let path = s.dma_cell.h2c_cdev_path in
      let log : List Call = open_read_write s.ctrl_cell.cdev_path ∷ calls in
      elim (IoResult-cases (os.opened calls (open_read_write s.ctrl_cell.cdev_path))) [
        | inl (cdev, e) ↦ elim (IoResult-cases (os.opened log (create path))) [
          | inl (h2c, f) ↦
              elim (IoResult-cases
                (os.opened (create path ∷ log) (open_read s.dma_cell.c2h_cdev_path))) [
                  | inl (c2h, g) ↦
                      let made : ◌≡◌ {A = Outcome (ShellError E) XilinxU55nXdmaStd}
                          (ok (shell cdev h2c c2h)) (ok sh) =
                        rw (e, f, g) at h in
                      (
                        record {
                          statics = full cdev h2c c2h;
                          thread = update (third cdev h2c c2h) 0 (holding (shell cdev h2c c2h));
                        },
                        next
                            (next
                              (next (next here (open_ctrl 0 cdev refl))
                                (enter_ctrl 0 cdev (ch cdev) refl refl))
                              (open_dma 0 (ch cdev) h2c c2h refl))
                            (enter_dma 0 (ch cdev) (record { h2c_cdev = h2c; c2h_cdev = c2h })
                              (shell cdev h2c c2h).dma_channel refl refl),
                        rw (e, f, g) refl,
                        ap holding (ok-injective made),
                      )
                  | inr (x, g) ↦ absurd (ground arith)
                ]
          | inr (x, f) ↦ absurd (ground arith)
        ]
        | inr (x, e) ↦ absurd (ground arith)
      ]
    where
      ch : File → CtrlChannel
      ch cdev = fill_once s.ctrl_cell.channel (record { cdev = cdev })

      shell : File → File → File → XilinxU55nXdmaStd
      shell cdev h2c c2h = record {
        ctrl_channel = ch cdev;
        dma_channel = fill_once s.dma_cell.channel (record { h2c_cdev = h2c; c2h_cdev = c2h });
      }

      full : File → File → File → Statics
      full cdev h2c c2h = record {
        ctrl_cell = (init_ctrl {E = E} s.ctrl_cell (ok cdev)).1;
        dma_cell = (init_dma {E = E} s.dma_cell (ok (record { h2c_cdev = h2c; c2h_cdev = c2h }))).1;
      }

      third : File → File → File → ℕ → Thread
      third cdev h2c c2h =
          update (update (update (λ k. idle) 0 (opened_ctrl cdev)) 0 (has_ctrl (ch cdev))) 0
            (opened_dma (ch cdev) (record { h2c_cdev = h2c; c2h_cdev = c2h }))
