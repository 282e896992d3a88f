-- ===== src/Tests/Race.antt =====
-- Two threads that make a shell at the same time: both open the control device before either fills the
-- cell, and the first is done before the second goes on.
use warpshell.Base.{ℕ, ◌≡◌, some, refl}
use warpshell.Xdma.{
  CtrlChannel, DmaChannel, ctrl_channel, dma_channel0, init_ctrl, init_dma, fill_once,
}
use warpshell.Shell.{Statics, XilinxU55nXdmaStd}
use warpshell.Shell.Race.{
  Thread, idle, opened_ctrl, has_ctrl, opened_dma, holding, World, update, open_ctrl, enter_ctrl,
  open_dma, enter_dma, Reach, here, next,
}
use warpshell.Shell.Race.Shared.{Reach-holding_shells}

abbrev own : DmaChannel
own = record { h2c_cdev = 7; c2h_cdev = 8 }

abbrev late : DmaChannel
late = record { h2c_cdev = 9; c2h_cdev = 10 }

abbrev five : CtrlChannel
five = record { cdev = 5 }

abbrev first_shell : XilinxU55nXdmaStd
first_shell = record { ctrl_channel = five; dma_channel = own }

abbrev at_rest : World
at_rest = record {
  statics = record { ctrl_cell = ctrl_channel; dma_cell = dma_channel0 };
  thread = λ k. idle;
}

abbrev filled : Statics
filled = record {
  ctrl_cell = record { cdev_path = "/dev/xdma0_user"; channel = some five };
  dma_cell = record {
    h2c_cdev_path = "/dev/xdma0_h2c_0";
    c2h_cdev_path = "/dev/xdma0_c2h_0";
    channel = some own;
  };
}

abbrev first_threads : ℕ → Thread
first_threads =
    let both = update (update (λ k. idle) 0 (opened_ctrl 5)) 1 (opened_ctrl 6) in
    update (update (update both 0 (has_ctrl five)) 0 (opened_dma five own)) 0 (holding first_shell)

abbrev first_done : World
first_done = record { statics = filled; thread = first_threads }

abbrev second_done : World
second_done = record {
  statics = filled;
  thread =
      update (update (update first_threads 1 (has_ctrl five)) 1 (opened_dma five late)) 1
        (holding first_shell);
}

first : Reach (Unit {0}) at_rest first_done
unfolding init_ctrl init_dma fill_once
first =
    next
      (next
        (next (next (next here (open_ctrl 0 5 refl)) (open_ctrl 1 6 refl))
          (enter_ctrl 0 5 five refl refl))
        (open_dma 0 five 7 8 refl))
      (enter_dma 0 five own own refl refl)

second : Reach (Unit {0}) first_done second_done
unfolding init_ctrl init_dma fill_once
second =
    next (next (next here (enter_ctrl 1 6 five refl refl)) (open_dma 1 five 9 10 refl))
      (enter_dma 1 five late own refl refl)

Reach-holding_shells_example : first_shell ≡ first_shell
Reach-holding_shells_example =
    Reach-holding_shells (Unit {0}) 0 1 first_shell first_shell (λ k. refl) first second refl refl
