-- ===== src/Cms/Answered/Steps.antt =====
-- Steps of `get_card_info` of sw/rust/warpshell/src/cores/cms.rs that a failed access ends.
use warpshell.Base.{ℕ, List, ◌≡◌, ap, inl, inr}
use warpshell.System.{Call, Os}
use warpshell.Outcome.{Outcome, ok, err, Exec, ◌>>=◌, ◌>>◌, map_err}
use warpshell.Based.{BasedError, BasedCtrlOps, poll_reg_mask_sleep}
use warpshell.Based.Poll.{poll_reg_mask_sleep_lem}
use warpshell.Xdma.{CtrlChannel, ctrl_ops}
use warpshell.Xdma.Transport.{ctrl_ops-Answers, write_u32-cases}
use warpshell.Cms.{CmsError, based_error}

module _ {E : Type 0} (os : Os E) (ch : CtrlChannel) (base : ℕ) where
  abbrev pub c : BasedCtrlOps E
  c = ctrl_ops os ch base

  abbrev pub Run : Type 0 → Type 0
  Run A = Outcome (CmsError E) A × List Call

  -- A read that fails ends the run; with its answer the run goes on.
  pub read_then :
      {A : Type 0} (P : Run A → Type 0) (offset : ℕ) (f : ℕ → Exec (CmsError E) A) (s : List Call)
      → ((x : BasedError E)
          → (c.based_ctrl_read_u32 offset s).0 ≡ err x
          → P (err (based_error x), (c.based_ctrl_read_u32 offset s).1))
      → ((v : ℕ)
          → (c.based_ctrl_read_u32 offset s).0 ≡ ok v
          → P (f v (c.based_ctrl_read_u32 offset s).1))
      → P ((map_err based_error (c.based_ctrl_read_u32 offset) >>= f) s)
  read_then P offset f s fails goes = elim ((ctrl_ops-Answers os ch base).answers offset s) [
    | inl (v, e) ↦ rw e (goes v e)
    | inr (x, e) ↦ rw e (fails x e)
  ]

  pub write_then :
      {A : Type 0} (P : Run A → Type 0) (offset value : ℕ) (m : Exec (CmsError E) A) (s : List Call)
      → ((x : BasedError E)
          → (c.based_ctrl_write_u32 offset value s).0 ≡ err x
          → P (err (based_error x), (c.based_ctrl_write_u32 offset value s).1))
      → ((c.based_ctrl_write_u32 offset value s).0 ≡ ok tt
          → P (m (c.based_ctrl_write_u32 offset value s).1))
      → P ((map_err based_error (c.based_ctrl_write_u32 offset value) >> m) s)
  write_then P offset value m s fails goes = elim (write_u32-cases os ch base offset value s) [
    | inl (a, e) ↦ let e' = ap (λ r. r.0) e in rw e' (goes e')
    | inr (x, a, e) ↦ let e' = ap (λ r. r.0) e in rw e' (fails _ e')
  ]

  pub poll_then :
      {A : Type 0} (P : Run A → Type 0) (offset mask expected n duration : ℕ)
      (m : Exec (CmsError E) A) (s : List Call)
      → ((x : BasedError E)
          → (poll_reg_mask_sleep c offset mask expected n duration s).0 ≡ err x
          → P (err (based_error x), (poll_reg_mask_sleep c offset mask expected n duration s).1))
      → P (m (poll_reg_mask_sleep c offset mask expected n duration s).1)
      → P ((map_err based_error (poll_reg_mask_sleep c offset mask expected n duration) >> m) s)
  poll_then P offset mask expected n duration m s fails goes =
      elim (poll_reg_mask_sleep_lem c (ctrl_ops-Answers os ch base) offset mask expected n duration
        s) [
          | inl (j, lt, before, now, e) ↦ rw (ap (λ r. r.0) e) goes
          | inr (all, e) ↦ let e' = ap (λ r. r.0) e in rw e' (fails _ e')
        ]
