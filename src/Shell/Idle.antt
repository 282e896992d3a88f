-- ===== src/Shell/Idle.antt =====
-- The first step of `program_user_image` in sw/rust/warpshell/src/shells/xilinx_u55n_xdma_std.rs.
use warpshell.Base.{ℕ, suc, ◌<◌, List, Bool, true, ◌≡◌, refl, sym, ap, ◌∙◌, ◌⊎◌, inl, inr}
use warpshell.System.{Call, Os}
use warpshell.Hbicap.Abort.{abort-Calm}
use warpshell.Outcome.{Calm, Calm-map_err, Outcome, ok, map_err}
use warpshell.Based.{BasedError}
use warpshell.Based.Poll.{attempt, poll_reg_mask_sleep_lem}
use warpshell.Based.Poll.Search.{after, answer, Misses}
use warpshell.Hbicap.{poll_done_every_10ms, abort}
use warpshell.Xdma.Transport.{ctrl_ops-Answers}
use warpshell.Shell.{
  XilinxU55nXdmaStd, on_ctrl, on_dma, base_addr, hbicap_ctrl_if, hbicap_dma_if, hbicap, or_abort,
  make_idle,
}

module _ {E : Type 0} (os : Os E) (sh : XilinxU55nXdmaStd) (debug : Bool) where
  -- A try to see the core idle, in its status register, after 10 ms
  abbrev pub look : List Call → Outcome (BasedError E) Bool × List Call
  look = attempt (on_ctrl os sh hbicap_ctrl_if) 0x110 1 1 10_000_000

  -- Making the core idle looks at the status at most 1000 times. If a look sees the core idle,
  -- that is the last call, and it succeeds; if none of the 1000 does, the outcome and the calls
  -- are those of aborting the core after them.
  pub make_idle_lem :
      (calls : List Call)
      → ((j : ℕ) × (j < 1000)
          × Misses look j calls
          × (answer look j calls ≡ ok true)
          × (make_idle os sh debug calls ≡ (ok tt, after look (suc j) calls)))
        ⊎ (Misses look 1000 calls
            × (make_idle os sh debug calls
                ≡ map_err hbicap
                    (abort (on_ctrl os sh hbicap_ctrl_if) (on_dma os sh hbicap_dma_if) debug)
                    (after look 1000 calls)))
  unfolding make_idle or_abort poll_done_every_10ms
  make_idle_lem calls =
      elim (poll_reg_mask_sleep_lem (on_ctrl os sh hbicap_ctrl_if)
        (ctrl_ops-Answers os sh.ctrl_channel (base_addr hbicap_ctrl_if)) 0x110 1 1 1000 10_000_000
        calls) [
          | inl (j, lt, before, now, e) ↦ inl (j, lt, before, now, rw e refl)
          | inr (all, e) ↦ inr (all, rw e refl)
        ]

  pub make_idle-Calm : Calm (make_idle os sh debug)
  make_idle-Calm calls h = elim (make_idle_lem calls) [
    | inl (j, lt, before, now, e) ↦ absurd (cc (ap (λ r. r.0) e, h))
    | inr (all, e) ↦
        Calm-map_err hbicap
          (abort (on_ctrl os sh hbicap_ctrl_if) (on_dma os sh hbicap_dma_if) debug)
          (abort-Calm os sh.ctrl_channel (base_addr hbicap_ctrl_if) sh.dma_channel
            (base_addr hbicap_dma_if) debug)
          (after look 1000 calls) (sym (ap (λ r. r.0) e) ∙ h)
  ]
