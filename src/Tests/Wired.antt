-- ===== src/Tests/Wired.antt =====
-- Runs of the theorems on the structs of the shell.
use warpshell.Base.{[], ◌≡◌, refl}
use warpshell.Outcome.{ok}
use warpshell.Xdma.{ctrl_channel, dma_channel0, ctrl_get_or_init, dma_get_or_init}
use warpshell.Shell
use warpshell.Shell.{Statics}
use warpshell.Shell.Cores.{XilinxU55nXdmaStd, assemble, new}
use warpshell.Shell.Cores.Wired.{Wired, Interfaces, new-Wired}
use warpshell.Shell.Channels.{Filled}
use warpshell.Tests.Device.{card}

abbrev fresh : Statics
fresh = record { ctrl_cell = ctrl_channel; dma_cell = dma_channel0 }

abbrev shell : XilinxU55nXdmaStd
shell = assemble (record { cdev = 0 }) (record { h2c_cdev = 1; c2h_cdev = 2 })

makes : (new card fresh []).0 ≡ ok shell
unfolding new ctrl_get_or_init dma_get_or_init
makes = refl

new-Wired_example :
    (sh : Shell.XilinxU55nXdmaStd) × Filled card sh (new card fresh []).1
    × Wired card shell sh.ctrl_channel sh.dma_channel
    × (Shell.new card fresh [] ≡ (ok sh, (new card fresh []).1, (new card fresh []).2))
    × Interfaces card shell sh
new-Wired_example = new-Wired card fresh [] shell makes
