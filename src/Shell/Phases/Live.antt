-- ===== src/Shell/Phases/Live.antt =====
-- Programming on a device that does what it is asked.
use warpshell.Base.{ℕ, ◌<◌, List, Bool, true, ◌≡◌, ap, inl, inr}
use warpshell.System.{Call, File, done, failed, Os}
use warpshell.Outcome.{ok}
use warpshell.Based.Poll.Search.{answer, Misses}
use warpshell.Shell.{XilinxU55nXdmaStd, program_user_image}
use warpshell.Shell.Idle.{look, make_idle_lem}
use warpshell.Shell.Phases.{
  Phase, fresh, idle, ctrl_blocked, blocked, sized, streamed, programmed, dma_cleared, dma_released,
  ctrl_cleared, released, Stuck,
}
use warpshell.Shell.Phases.Run.{finished, failed as failed_in, program_user_image-Runs}

-- The device accepts every write, and whenever it is looked at for 10 s, every 10 ms, it is once
-- seen idle.
pub record Obliging {E : Type 0} (os : Os E) (sh : XilinxU55nXdmaStd) (debug : Bool) : Type 0 where
  pub accepts :
      (log : List Call) (file : File) (bytes : List ℕ) (address : ℕ)
      → os.written log file bytes address ≡ done tt
  pub settles :
      (log : List Call) → (j : ℕ) × (j < 1000) × (answer (look os sh debug) j log ≡ ok true)

module _ {E : Type 0} (os : Os E) (sh : XilinxU55nXdmaStd) (debug : Bool)
    (obliging : Obliging os sh debug) where
  never_missed : (log : List Call) → Misses (look os sh debug) 1000 log → ⊥
  never_missed log all = let (j, lt, now) = obliging.settles log in absurd (cc (now, all j lt))

  accepted :
      (log : List Call) (file : File) (bytes : List ℕ) (address : ℕ)
      → (x : E) × (os.written log file bytes address ≡ failed x)
      → ⊥
  accepted log file bytes address (x, e) = absurd (cc (e, obliging.accepts log file bytes address))

  never-Stuck : (image : List ℕ) (p : Phase) (log : List Call) → Stuck os sh debug image p log → ⊥
  never-Stuck image fresh log (e, h) = elim (make_idle_lem os sh debug log) [
    | inl (j, lt, before, now, run) ↦ absurd (cc (ap (λ r. r.0) run, h))
    | inr (all, run) ↦ never_missed log all
  ]
  never-Stuck image streamed log all = never_missed log all
  never-Stuck image released log s = s
  never-Stuck image idle log s = accepted log _ _ _ s
  never-Stuck image ctrl_blocked log s = accepted log _ _ _ s
  never-Stuck image blocked log s = accepted log _ _ _ s
  never-Stuck image sized log s = accepted log _ _ _ s
  never-Stuck image programmed log s = accepted log _ _ _ s
  never-Stuck image dma_cleared log s = accepted log _ _ _ s
  never-Stuck image dma_released log s = accepted log _ _ _ s
  never-Stuck image ctrl_cleared log s = accepted log _ _ _ s

  -- If the device accepts every write, and is seen idle at least once in any 1000 looks 10 ms apart,
  -- then `program_user_image` succeeds, for every image and whatever was called before.
  pub program_user_image-Obliging :
      (image : List ℕ) (calls : List Call) → (program_user_image os sh debug image calls).0 ≡ ok tt
  program_user_image-Obliging image calls =
      let (p, log, reach, ends) = program_user_image-Runs os sh debug image calls in
      elim ends [
        | finished e run ↦ ap (λ r. r.0) run
        | failed_in e stuck run ↦ absurd (never-Stuck image p log stuck)
      ]
