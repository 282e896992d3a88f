-- ===== src/Shell/Phases.antt =====
-- `program_user_image` of sw/rust/warpshell/src/shells/xilinx_u55n_xdma_std.rs as a machine of
-- phases. Its first step is `make_idle`; from the idle core on, the steps are stated by the addresses
-- and values on the bus, without the cores' operations.
pub mod Steps
pub mod Run
pub mod Firewalls
pub mod Live
use warpshell.Base.{ℕ, ◌+◌, ◌<◌, ◌≤◌, ◌/◌, suc, List, ◌∷◌, Bool, true, ◌≡◌, length}
use warpshell.Base.Bytes.{u32, to_le_bytes}
use warpshell.System.{Call, write_all_at, done, failed, Os}
use warpshell.Outcome.{ok, err}
use warpshell.Based.Poll.Search.{after, answer, Misses}
use warpshell.Xdma.Transport.{polls}
use warpshell.Shell.{XilinxU55nXdmaStd, ShellError, make_idle}
use warpshell.Shell.Idle.{look}

-- How far programming has come
pub data Phase : Type 0 where
  fresh idle ctrl_blocked blocked sized streamed programmed : Phase
  dma_cleared dma_released ctrl_cleared released : Phase

module _ {E : Type 0} (os : Os E) where
  -- The device accepts a write, or refuses it, after the calls made before.
  abbrev pub Accepts : List Call → Call → Type 0
  Accepts calls (write_all_at file bytes address) = os.written calls file bytes address ≡ done tt
  Accepts calls _ = ⊥

  abbrev pub Refuses : List Call → Call → Type 0
  Refuses calls (write_all_at file bytes address) =
      (x : E) × (os.written calls file bytes address ≡ failed x)
  Refuses calls _ = ⊥

module _ {E : Type 0} (os : Os E) (sh : XilinxU55nXdmaStd) (debug : Bool) (image : List ℕ) where
  abbrev pub reg_write : ℕ → ℕ → Call
  reg_write address value = write_all_at sh.ctrl_channel.cdev (to_le_bytes value) address

  abbrev pub image_write : Call
  image_write = write_all_at sh.dma_channel.h2c_cdev image 0x1000_0000_0000_0000

  -- The one call with which a phase is left, where it is left by a write
  abbrev pub leaving : Phase → Call
  leaving idle = reg_write 0x0407_0004 0x0100_0100
  leaving ctrl_blocked = reg_write 0x0408_0004 0x0100_0100
  leaving blocked = reg_write 0x0405_0108 (u32 (length image / 4))
  leaving sized = image_write
  leaving programmed = reg_write 0x0408_0004 0
  leaving dma_cleared = reg_write 0x0408_0008 1
  leaving dma_released = reg_write 0x0407_0004 0
  leaving _ = reg_write 0x0407_0008 1

  -- From `fresh` with the log `calls`, the machine can come to a phase with a log.
  pub data Reach (calls : List Call) : Phase → List Call → Type 0 where
    start : Reach calls fresh calls
    settle :
        {log : List Call}
        → Reach calls fresh calls
        → make_idle os sh debug calls ≡ (ok tt, log)
        → Reach calls idle log
    block_ctrl :
        {log : List Call}
        → Reach calls idle log
        → Accepts os log (leaving idle)
        → Reach calls ctrl_blocked (leaving idle ∷ log)
    block_dma :
        {log : List Call}
        → Reach calls ctrl_blocked log
        → Accepts os log (leaving ctrl_blocked)
        → Reach calls blocked (leaving ctrl_blocked ∷ log)
    size :
        {log : List Call}
        → Reach calls blocked log
        → Accepts os log (leaving blocked)
        → Reach calls sized (leaving blocked ∷ log)
    stream :
        {log : List Call}
        → Reach calls sized log
        → Accepts os log (leaving sized)
        → Reach calls streamed (leaving sized ∷ log)
    wait :
        {log : List Call} (j : ℕ)
        → Reach calls streamed log
        → j < 1000
        → Misses (look os sh debug) j log
        → answer (look os sh debug) j log ≡ ok true
        → Reach calls programmed (polls os sh.ctrl_channel 0x0405_0000 (suc j) 0x110 10_000_000 log)
    clear_dma :
        {log : List Call}
        → Reach calls programmed log
        → Accepts os log (leaving programmed)
        → Reach calls dma_cleared (leaving programmed ∷ log)
    release_dma :
        {log : List Call}
        → Reach calls dma_cleared log
        → Accepts os log (leaving dma_cleared)
        → Reach calls dma_released (leaving dma_cleared ∷ log)
    clear_ctrl :
        {log : List Call}
        → Reach calls dma_released log
        → Accepts os log (leaving dma_released)
        → Reach calls ctrl_cleared (leaving dma_released ∷ log)
    release_ctrl :
        {log : List Call}
        → Reach calls ctrl_cleared log
        → Accepts os log (leaving ctrl_cleared)
        → Reach calls released (leaving ctrl_cleared ∷ log)

  -- Why the machine cannot leave a phase: the core cannot be made idle, does not become idle in
  -- time, or the write is refused.
  abbrev pub Stuck : Phase → List Call → Type 0
  Stuck fresh log = (e : ShellError E) × ((make_idle os sh debug log).0 ≡ err e)
  Stuck streamed log = Misses (look os sh debug) 1000 log
  Stuck released log = ⊥
  Stuck p log = Refuses os log (leaving p)

  -- The log once it has been tried in vain to leave a phase
  abbrev pub tried : Phase → List Call → List Call
  tried fresh log = (make_idle os sh debug log).1
  tried streamed log = polls os sh.ctrl_channel 0x0405_0000 1000 0x110 10_000_000 log
  tried p log = leaving p ∷ log
