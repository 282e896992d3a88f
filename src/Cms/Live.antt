-- ===== src/Cms/Live.antt =====
-- `CmsOps::init` of sw/rust/warpshell/src/cores/cms.rs on a device that answers.
use warpshell.Base.{
  ℕ, ◌+◌, ◌<◌, List, true, ◌==◌, ◌≡◌, ◌≢◌, refl, ap, ◌⊎◌, arith, inl, inr, Bool-cases, ==_iff,
}
use warpshell.Base.Bytes.{u64, to_le_bytes}
use warpshell.System.{Call, done, Os}
use warpshell.Outcome.{ok, err}
use warpshell.Based.{BasedCtrlOps, poll_reg_mask_sleep}
use warpshell.Based.Poll.{attempt, poll_reg_mask_sleep_lem}
use warpshell.Based.Poll.Search.{answer}
use warpshell.Xdma.{CtrlChannel, ctrl_ops}
use warpshell.Xdma.Transport.{ctrl_ops-Answers, write_u32-cases}
use warpshell.Cms.{
  unsupported_reg_map_id, set_cms_reg, get_reg_map_id, get_cms_reg, get_cms_control_reg,
  set_cms_control_reg, expect_ready_host_status, enable_hbm_temp_monitoring, init,
}

module _ {E : Type 0} (os : Os E) (ch : CtrlChannel) (base : ℕ) where
  abbrev c : BasedCtrlOps E
  c = ctrl_ops os ch base

  -- The core accepts writes to its registers, its host status is ready at one of the next 1000 looks
  -- 1 ms apart, its control register can be read, and its register map has the id `id`.
  pub record Ready (id : ℕ) : Type 0 where
    pub accepts :
        (log : List Call) (offset value : ℕ)
        → os.written log ch.cdev (to_le_bytes value) (u64 (base + offset)) ≡ done tt
    pub settles :
        (log : List Call)
        → (j : ℕ) × (j < 1000) × (answer (attempt c 0x2_830c 1 1 1_000_000) j log ≡ ok true)
    pub identified : (log : List Call) → (c.based_ctrl_read_u32 0x2_8000 log).0 ≡ ok id
    pub controlled : (log : List Call) → (v : ℕ) × ((c.based_ctrl_read_u32 0x2_8018 log).0 ≡ ok v)

  module _ (id : ℕ) (ready : Ready id) where
    writes :
        (offset value : ℕ) (log : List Call) → (c.based_ctrl_write_u32 offset value log).0 ≡ ok tt
    writes offset value log = elim (write_u32-cases os ch base offset value log) [
      | inl (a, e) ↦ ap (λ r. r.0) e
      | inr (x, a, e) ↦ absurd (cc (a, ready.accepts log offset value))
    ]

    waits :
        (log : List Call)
        → (t : ℕ) × ((poll_reg_mask_sleep c 0x2_830c 1 1 1000 1_000_000 log).0 ≡ ok t)
    waits log =
        elim (poll_reg_mask_sleep_lem c (ctrl_ops-Answers os ch base) 0x2_830c 1 1 1000 1_000_000
          log) [
            | inl (j, lt, before, now, e) ↦ (j + 1, ap (λ r. r.0) e)
            | inr (all, e) ↦ let (j, lt, now) = ready.settles log in absurd (cc (now, all j lt))
          ]

    enables : (log : List Call) → (enable_hbm_temp_monitoring c log).0 ≡ ok tt
    unfolding enable_hbm_temp_monitoring get_cms_control_reg set_cms_control_reg get_cms_reg
        set_cms_reg
    enables log = let (v, e) = ready.controlled log in rw e (rw (writes 0x2_8018 _ _) refl)

    -- On a core that is ready, `init` succeeds if the id of the register map is the supported one, and
    -- otherwise returns `UnsupportedRegMapId` with the id.
    pub init-Ready :
        (calls : List Call)
        → ((id ≡ 0x7473_6574) × ((init c calls).0 ≡ ok tt))
          ⊎ ((id ≢ 0x7473_6574) × ((init c calls).0 ≡ err (unsupported_reg_map_id id)))
    unfolding init set_cms_reg expect_ready_host_status get_reg_map_id get_cms_reg
    init-Ready calls =
        let s₁ : List Call = (c.based_ctrl_write_u32 0x2_0000 1 calls).1 in
        let (t, waited) = waits s₁ in
        let s₂ : List Call = (poll_reg_mask_sleep c 0x2_830c 1 1 1000 1_000_000 s₁).1 in
        elim (Bool-cases (id == 0x7473_6574)) [
          | inl e ↦ inl (
            (==_iff id 0x7473_6574).0 e,
            rw (writes 0x2_0000 1 calls, waited, ready.identified s₂, e) (enables _),
          )
          | inr e ↦
              inr (ground arith, rw (writes 0x2_0000 1 calls, waited, ready.identified s₂, e) refl)
        ]
