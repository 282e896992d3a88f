-- ===== src/Shell/Phases/Run.antt =====
-- Runs of `program_user_image` are runs of the machine of phases.
use warpshell.Base.{
  ℕ, suc, ◌+◌, ◌/◌, List, ◌∷◌, Bool, ◌≡◌, refl, sym, ap, subst, ◌∙◌, inl, inr, length,
}
use warpshell.Base.Bytes.{u32, u64}
use warpshell.System.{Call, Os}
use warpshell.Outcome.{Outcome, ok, err, Outcome-cases, Exec, ◌>>◌, pure, map_err}
use warpshell.Based.{reg_mask_not_as_expected, BasedCtrlOps, BasedDmaOps}
use warpshell.Based.Poll.{poll_reg_mask_sleep_lem}
use warpshell.AxiFirewall.{AxiFirewallError, block_mi, unblock_mi, set_axi_firewall_reg}
use warpshell.Hbicap.{based_error, from_secs, write_bitstream, set_hbicap_reg, poll_done_every_10ms}
use warpshell.Xdma.{ctrl_ops, dma_ops}
use warpshell.Xdma.Transport.{ctrl_ops-Answers, after-attempt}
use warpshell.Shell.{
  XilinxU55nXdmaStd, ShellError, base_addr, make_idle, program_user_image, axi_firewall, hbicap,
}
use warpshell.Shell.Idle.{make_idle-Calm}
use warpshell.Shell.Phases
use warpshell.Shell.Phases.{
  Phase, fresh, idle, ctrl_blocked, blocked, sized, streamed, programmed, dma_cleared, dma_released,
  ctrl_cleared, released, leaving, Accepts, Refuses, Reach, Stuck, tried,
}
use warpshell.Shell.Phases.Steps.{Wrote, Wrote-map_err, Wrote-reg, Wrote-dma, bind_pure}

module _ {E : Type 0} (os : Os E) (sh : XilinxU55nXdmaStd) (debug : Bool) (image : List ℕ)
    (calls : List Call) where
  -- A run that has come to a phase ends there: with success in the last one, and with an error
  -- where the machine is stuck.
  pub data Ends (p : Phase) (log : List Call) (run : Outcome (ShellError E) Unit × List Call)
      : Type 0 where
    finished : p ≡ released → run ≡ (ok tt, log) → Ends p log run
    failed :
        (e : ShellError E)
        → Stuck os sh debug image p log
        → run ≡ (err e, tried os sh debug image p log)
        → Ends p log run

  abbrev pub Runs : Outcome (ShellError E) Unit × List Call → Type 0
  Runs run = (p : Phase) × (log : List Call) × Reach os sh debug image calls p log × Ends p log run

  -- The write that leaves a phase, with the rest of the run
  leave :
      (p : Phase) (log : List Call) (m rest : Exec (ShellError E) Unit)
      → Reach os sh debug image calls p log
      → (Refuses os log (leaving os sh debug image p) → Stuck os sh debug image p log)
      → tried os sh debug image p log ≡ leaving os sh debug image p ∷ log
      → Wrote os sh m log (leaving os sh debug image p)
      → (Accepts os log (leaving os sh debug image p)
          → Runs (rest (leaving os sh debug image p ∷ log)))
      → Runs ((m >> rest) log)
  leave p log m rest reach stuck lead (inl (a, e)) on = rw e (on a)
  leave p log m rest reach stuck lead (inr (r, (x, e))) on =
      (p, log, reach, failed x (stuck r) (rw e (ap (λ l. (err x, l)) (sym lead))))

  abbrev fw : ℕ → BasedCtrlOps E
  fw base = ctrl_ops os sh.ctrl_channel base

  abbrev c : BasedCtrlOps E
  c = ctrl_ops os sh.ctrl_channel 0x0405_0000

  abbrev d : BasedDmaOps E
  d = dma_ops os sh.dma_channel 0x1000_0000_0000_0000

  -- A firewall's register written
  abbrev set : ℕ → ℕ → ℕ → Exec (ShellError E) Unit
  set base offset value =
      map_err axi_firewall
        (map_err AxiFirewallError.based_error ((fw base).based_ctrl_write_u32 offset value))

  Wrote-set :
      (base offset value : ℕ) (log : List Call)
      → Wrote os sh
          (set base offset value)
          log
          (Phases.reg_write os sh debug image (u64 (base + offset)) value)
  Wrote-set base offset value log =
      let w = (fw base).based_ctrl_write_u32 offset value in
      Wrote-map_err os sh axi_firewall (map_err AxiFirewallError.based_error w) log _ (
        Wrote-map_err os sh AxiFirewallError.based_error w log _
          (Wrote-reg os sh base offset value log))

  unblock_two :
      (base : ℕ) (k : Exec (ShellError E) Unit) (s : List Call)
      → (map_err axi_firewall (unblock_mi (fw base)) >> k) s
        ≡ (set base 4 0 >> (set base 8 1 >> k)) s
  unfolding unblock_mi set_axi_firewall_reg
  unblock_two base k s = elim (Outcome-cases ((fw base).based_ctrl_write_u32 4 0 s).0) [
    | inl (a, e) ↦ rw e refl
    | inr (inl (x, e)) ↦ rw e refl
    | inr (inr e) ↦ rw e refl
  ]

  abbrev set_size : Exec (ShellError E) Unit
  set_size =
      map_err hbicap (map_err based_error (c.based_ctrl_write_u32 0x108 (u32 (length image / 4))))

  abbrev send : Exec (ShellError E) Unit
  send = map_err hbicap (map_err based_error (d.based_dma_write image 0))

  write_two :
      (k : Exec (ShellError E) Unit) (s : List Call)
      → (map_err hbicap (write_bitstream c d image) >> k) s ≡ (set_size >> (send >> k)) s
  unfolding write_bitstream set_hbicap_reg
  write_two k s = elim (Outcome-cases (c.based_ctrl_write_u32 0x108 (u32 (length image / 4)) s).0) [
    | inl (a, e) ↦ rw e refl
    | inr (inl (x, e)) ↦ rw e refl
    | inr (inr e) ↦ rw e refl
  ]

  abbrev Reached : Phase → List Call → Type 0
  Reached p log = Reach os sh debug image calls p log

  from_released : (log : List Call) → Reached released log → Runs (pure tt log)
  from_released log r = (released, log, r, finished refl refl)

  from_dma_released :
      (log : List Call)
      → Reached dma_released log
      → Runs (map_err axi_firewall (unblock_mi (fw 0x0407_0000)) log)
  from_dma_released log r =
      subst Runs
        (sym (
          bind_pure (map_err axi_firewall (unblock_mi (fw 0x0407_0000))) log
          ∙ unblock_two 0x0407_0000 (pure tt) log))
        (leave dma_released log (set 0x0407_0000 4 0) _ r (λ h. h) refl
          (Wrote-set 0x0407_0000 4 0 log)
          λ a.
            leave ctrl_cleared _ (set 0x0407_0000 8 1) (pure tt) (Reach.clear_ctrl r a) (λ h. h)
              refl (Wrote-set 0x0407_0000 8 1 _)
              λ b. from_released _ (Reach.release_ctrl (Reach.clear_ctrl r a) b))

  abbrev last : Exec (ShellError E) Unit
  last = map_err axi_firewall (unblock_mi (fw 0x0407_0000))

  from_programmed :
      (log : List Call)
      → Reached programmed log
      → Runs ((map_err axi_firewall (unblock_mi (fw 0x0408_0000)) >> last) log)
  from_programmed log r = subst Runs (sym (unblock_two 0x0408_0000 last log)) (
      leave programmed log (set 0x0408_0000 4 0) _ r (λ h. h) refl (Wrote-set 0x0408_0000 4 0 log)
        λ a.
          leave dma_cleared _ (set 0x0408_0000 8 1) last (Reach.clear_dma r a) (λ h. h) refl
            (Wrote-set 0x0408_0000 8 1 _)
            λ b. from_dma_released _ (Reach.release_dma (Reach.clear_dma r a) b))

  abbrev unblock : Exec (ShellError E) Unit
  unblock = map_err axi_firewall (unblock_mi (fw 0x0408_0000)) >> last

  abbrev timed_out : ShellError E
  timed_out = hbicap (based_error (reg_mask_not_as_expected 0x110 1 1))

  from_streamed :
      (log : List Call)
      → Reached streamed log
      → Runs ((map_err hbicap (poll_done_every_10ms c d (from_secs 10)) >> unblock) log)
  unfolding poll_done_every_10ms base_addr
  from_streamed log r =
      elim (poll_reg_mask_sleep_lem c (ctrl_ops-Answers os sh.ctrl_channel 0x0405_0000) 0x110 1 1
        1000 10_000_000 log) [
          | inl (j, lt, before, now, e) ↦ rw e (
              subst (λ l. Runs (unblock l))
                (sym
                  (after-attempt os sh.ctrl_channel 0x0405_0000 0x110 1 1 10_000_000 (suc j) log))
                (from_programmed _ (Reach.wait j r lt before now)))
          | inr (all, e) ↦ (
            streamed,
            log,
            r,
            failed timed_out all (
                rw e (
                  ap (λ l. (err timed_out, l))
                    (after-attempt os sh.ctrl_channel 0x0405_0000 0x110 1 1 10_000_000 1000 log))),
          )
        ]

  abbrev wait_and_unblock : Exec (ShellError E) Unit
  wait_and_unblock = map_err hbicap (poll_done_every_10ms c d (from_secs 10)) >> unblock

  from_blocked :
      (log : List Call)
      → Reached blocked log
      → Runs ((map_err hbicap (write_bitstream c d image) >> wait_and_unblock) log)
  from_blocked log r =
      let w = c.based_ctrl_write_u32 0x108 (u32 (length image / 4)) in
      let v = d.based_dma_write image 0 in
      subst Runs (sym (write_two wait_and_unblock log)) (
        leave blocked log set_size _ r (λ h. h) refl
          (Wrote-map_err os sh hbicap (map_err based_error w) log _
            (Wrote-map_err os sh based_error w log _ (Wrote-reg os sh 0x0405_0000 0x108 _ log)))
          λ a.
            leave sized _ send wait_and_unblock (Reach.size r a) (λ h. h) refl
              (Wrote-map_err os sh hbicap (map_err based_error v) _ _ (
                Wrote-map_err os sh based_error v _ _
                  (Wrote-dma os sh 0x1000_0000_0000_0000 0 image _)))
              λ b. from_streamed _ (Reach.stream (Reach.size r a) b))

  abbrev program : Exec (ShellError E) Unit
  program = map_err hbicap (write_bitstream c d image) >> wait_and_unblock

  block_set :
      (base : ℕ) (log : List Call)
      → map_err axi_firewall (block_mi (fw base)) log ≡ set base 4 0x0100_0100 log
  unfolding block_mi set_axi_firewall_reg
  block_set base log = refl

  from_idle :
      (log : List Call)
      → Reached idle log
      → Runs ((set 0x0407_0000 4 0x0100_0100 >> (set 0x0408_0000 4 0x0100_0100 >> program)) log)
  from_idle log r =
      leave idle log (set 0x0407_0000 4 0x0100_0100) _ r (λ h. h) refl
        (Wrote-set 0x0407_0000 4 0x0100_0100 log)
        λ a.
          leave ctrl_blocked _ (set 0x0408_0000 4 0x0100_0100) program (Reach.block_ctrl r a)
            (λ h. h) refl (Wrote-set 0x0408_0000 4 0x0100_0100 _)
            λ b. from_blocked _ (Reach.block_dma (Reach.block_ctrl r a) b)

  -- Whatever the device answers, a run of `program_user_image` is one of the machine of phases: it
  -- comes to some phase, with the calls that the machine has made there: those of `make_idle` on the
  -- way from `fresh` to `idle`, and from there on those of the addresses and values that the machine
  -- names. If this is the last phase it
  -- returns success; otherwise the machine is stuck in it, and the run returns an error, with the
  -- calls of the step that failed and no others. It never panics.
  pub program_user_image-Runs : Runs (program_user_image os sh debug image calls)
  unfolding program_user_image base_addr block_mi set_axi_firewall_reg
  program_user_image-Runs = elim (Outcome-cases (make_idle os sh debug calls).0) [
    | inl (u, e) ↦ rw e (from_idle _ (Reach.settle Reach.start (rw (← e) refl)))
    | inr (inl (x, e)) ↦ (fresh, calls, Reach.start, failed x (x, e) (rw e refl))
    | inr (inr e) ↦ absurd (make_idle-Calm os sh debug calls e)
  ]
