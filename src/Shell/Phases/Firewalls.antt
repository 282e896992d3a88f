-- ===== src/Shell/Phases/Firewalls.antt =====
-- The firewalls' registers in each phase of `program_user_image`.
use warpshell.Base.{
  ℕ, zero, suc, List, [], ◌∷◌, Bool, true, false, ◌&&◌, ◌==◌, if◌then◌else◌, Option, none, some,
  ◌≡◌, refl, ◌∙◌, arith,
}
use warpshell.Base.Bytes.{to_le_bytes}
use warpshell.System.{Call, File, write_all_at, IoResult, done, failed, Os}
use warpshell.Xdma.Transport.{polls}
use warpshell.Shell.{XilinxU55nXdmaStd, program_user_image}
use warpshell.Shell.Phases.{
  Phase, fresh, idle, ctrl_blocked, blocked, sized, streamed, programmed, dma_cleared, dma_released,
  ctrl_cleared, released, tried, Stuck, Reach, start, settle, block_ctrl, block_dma, size, stream,
  wait, clear_dma, release_dma, clear_ctrl, release_ctrl,
}
use warpshell.Shell.Phases.Run.{Ends, finished, failed as failed_in, program_user_image-Runs}

abbrev accepted : {E : Type 0} → IoResult E (Unit {0}) → Bool
accepted (done u) = true
accepted (failed x) = false

module _ {E : Type 0} (os : Os E) (file : File) where
  -- What the device has last accepted at an address of a file
  unfoldable pub held : ℕ → List Call → Option (List ℕ)
  held address [] = none
  held address (write_all_at f bytes a ∷ log) =
      let before = held address log in
      if a == address && (f == file && accepted (os.written log f bytes a))
      then some bytes
      else before
  held address (_ ∷ log) = held address log

module _ {E : Type 0} (os : Os E) (sh : XilinxU55nXdmaStd) where
  abbrev reg : ℕ → List Call → Option (List ℕ)
  reg = held os sh.ctrl_channel.cdev

  -- The registers of the two firewalls: blocking for control and DMA
  abbrev pub Blocks : ℕ → ℕ → List Call → Type 0
  Blocks ctrl dma log =
      (reg 0x0407_0004 log ≡ some (to_le_bytes ctrl))
      × (reg 0x0408_0004 log ≡ some (to_le_bytes dma))

  -- What the registers hold in a phase
  abbrev pub Isolation : Phase → List Call → Type 0
  Isolation fresh log = Unit {0}
  Isolation idle log = Unit {0}
  Isolation ctrl_blocked log = reg 0x0407_0004 log ≡ some (to_le_bytes 0x0100_0100)
  Isolation dma_cleared log = Blocks 0x0100_0100 0 log
  Isolation dma_released log =
      Blocks 0x0100_0100 0 log × (reg 0x0408_0008 log ≡ some (to_le_bytes 1))
  Isolation ctrl_cleared log = Blocks 0 0 log × (reg 0x0408_0008 log ≡ some (to_le_bytes 1))
  Isolation released log =
      Blocks 0 0 log
      × (reg 0x0408_0008 log ≡ some (to_le_bytes 1))
      × (reg 0x0407_0008 log ≡ some (to_le_bytes 1))
  Isolation _ log = Blocks 0x0100_0100 0x0100_0100 log

  held-polls :
      (address base k offset duration : ℕ) (log : List Call)
      → reg address (polls os sh.ctrl_channel base k offset duration log) ≡ reg address log
  unfolding held
  held-polls address base zero offset duration log = refl
  held-polls address base (suc k) offset duration log = held-polls address base k offset duration _

  module _ (debug : Bool) (image : List ℕ) where
    Reach-Isolation :
        {calls : List Call} {p : Phase} {log : List Call}
        → Reach os sh debug image calls p log
        → Isolation p log
    unfolding held
    Reach-Isolation start = tt
    Reach-Isolation (settle r e) = tt
    Reach-Isolation (block_ctrl r a) = ground arith
    Reach-Isolation (block_dma r a) = let h = Reach-Isolation r in ground arith
    Reach-Isolation (size r a) = let h = Reach-Isolation r in ground arith
    Reach-Isolation (stream r a) = let h = Reach-Isolation r in ground arith
    Reach-Isolation (wait {log} j r lt before now) =
        let (h, k) = Reach-Isolation r in
        (
          held-polls 0x0407_0004 0x0405_0000 (suc j) 0x110 10_000_000 log ∙ h,
          held-polls 0x0408_0004 0x0405_0000 (suc j) 0x110 10_000_000 log ∙ k,
        )
    Reach-Isolation (clear_dma r a) = let h = Reach-Isolation r in ground arith
    Reach-Isolation (release_dma r a) = let h = Reach-Isolation r in ground arith
    Reach-Isolation (clear_ctrl r a) = let h = Reach-Isolation r in ground arith
    Reach-Isolation (release_ctrl r a) = let h = Reach-Isolation r in ground arith

    -- A step that fails changes no register.
    Stuck-Isolation :
        (p : Phase) (log : List Call)
        → Isolation p log
        → Stuck os sh debug image p log
        → Isolation p (tried os sh debug image p log)
    unfolding held
    Stuck-Isolation fresh log h s = tt
    Stuck-Isolation idle log h s = tt
    Stuck-Isolation ctrl_blocked log h (x, e) = ground arith
    Stuck-Isolation blocked log h (x, e) = ground arith
    Stuck-Isolation sized log h (x, e) = ground arith
    Stuck-Isolation streamed log (h, k) s = (
      held-polls 0x0407_0004 0x0405_0000 1000 0x110 10_000_000 log ∙ h,
      held-polls 0x0408_0004 0x0405_0000 1000 0x110 10_000_000 log ∙ k,
    )
    Stuck-Isolation programmed log h (x, e) = ground arith
    Stuck-Isolation dma_cleared log h (x, e) = ground arith
    Stuck-Isolation dma_released log h (x, e) = ground arith
    Stuck-Isolation ctrl_cleared log h (x, e) = ground arith
    Stuck-Isolation released log h s = absurd s

  -- However a run of `program_user_image` ends, it is a run of the machine of phases that ends in some
  -- phase, and the firewalls' registers hold what they hold in that phase: both block from the phase in
  -- which both are blocked to the one in which the image is programmed, also where the run has failed
  -- there, and both are released in the last one, in which alone the run succeeds.
  pub program_user_image-Isolation :
      (debug : Bool) (image : List ℕ) (calls : List Call)
      → let run = program_user_image os sh debug image calls in
        (p : Phase) × (log : List Call) × Reach os sh debug image calls p log
        × Ends os sh debug image calls p log run
        × Isolation p run.1
  program_user_image-Isolation debug image calls =
      let (p, log, reach, ends) = program_user_image-Runs os sh debug image calls in
      let now : Isolation p log = Reach-Isolation debug image reach in
      (
        p,
        log,
        reach,
        ends,
        elim ends [
          | finished e run ↦ rw run now
          | failed_in e stuck run ↦ rw run (Stuck-Isolation debug image p log now stuck)
        ],
      )
