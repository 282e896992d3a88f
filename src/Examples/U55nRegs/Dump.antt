-- ===== src/Examples/U55nRegs/Dump.antt =====
-- The readings of sw/rust/warpshell/examples/u55n_regs.rs on the bus.
use warpshell.Base.{ℕ, ◌+◌, List, [], ◌∷◌, ◌≡◌, refl, sym, ap, subst, ◌∙◌, arith, inl, inr, take}
use warpshell.Base.Bytes.{u64, from_le_bytes}
use warpshell.System.{Call, read_exact_at, done, IoResult-cases, Os}
use warpshell.Outcome.{Outcome-cases, ok, Exec, bind-ok_next, map_err}
use warpshell.Based.{BasedError, BasedCtrlOps, BasedDmaOps}
use warpshell.Xdma.{CtrlChannel, ctrl_ops}
use warpshell.Xdma.Transport.{read_u32_calls}
use warpshell.Hbicap.{config_logic_reg_readback, readback_opening, readback_closing}
use warpshell.Hbicap.Packet.{ConfigLogicReg}
use warpshell.Hbicap.Readback.{Fetched, config_logic_reg_readback-Fetched}
use warpshell.Shell.{XilinxU55nXdmaStd, on_ctrl, on_dma, hbicap_ctrl_if, hbicap_dma_if, base_addr}
use warpshell.Examples.{expect}
use warpshell.Examples.U55nRegs.{readings}

pub expect-ok :
    {X A : Type 0} (m : Exec X A) (calls : List Call) {a : A}
    → (expect m calls).0 ≡ ok a
    → (m calls).0 ≡ ok a
unfolding expect
expect-ok m calls h = elim (Outcome-cases (m calls).0) [
  | inl (b, e) ↦ ground arith
  | inr (inl (x, e)) ↦ absurd (ground arith)
  | inr (inr e) ↦ absurd (ground arith)
]

-- A reading that succeeds: the first register's, and then the others'
readings-ok :
    {X R : Type 0} (get : R → Exec X ℕ) (reg : R) (regs : List R) (calls : List Call)
    {shown : List (R × ℕ)}
    → (readings get (reg ∷ regs) calls).0 ≡ ok shown
    → (v : ℕ) × (rest : List (R × ℕ)) × ((get reg calls).0 ≡ ok v)
      × ((readings get regs (get reg calls).1).0 ≡ ok rest)
      × (shown ≡ (reg, v) ∷ rest)
      × ((readings get (reg ∷ regs) calls).1 ≡ (readings get regs (get reg calls).1).1)
unfolding readings expect
readings-ok get reg regs calls h =
    let (v, a, l, k) = bind-ok_next (expect (get reg)) _ calls h in
    let (rest, b, m, z) = bind-ok_next (readings get regs) _ (get reg calls).1 k in
    (v, rest, expect-ok (get reg) calls a, b, ground arith, l ∙ m)

module _ {E : Type 0} (os : Os E) (ch : CtrlChannel) (base : ℕ) where
  -- Registers read one after the other, each once, from one log to another: for each the four bytes
  -- that the device answers with at its address
  abbrev pub Dump : {R : Type 0} → (R → ℕ) → List R → List (R × ℕ) → List Call → List Call → Type 0
  Dump offset [] shown from to = (shown ≡ []) × (to ≡ from)
  Dump {R} offset (reg ∷ regs) shown from to =
      (bytes : List ℕ) × (rest : List (R × ℕ)) × (os.read from ch.cdev 4 (u64 (base + offset reg))
        ≡ done bytes)
      × (shown ≡ (reg, from_le_bytes bytes) ∷ rest)
      × Dump offset regs rest (read_exact_at ch.cdev 4 (u64 (base + offset reg)) ∷ from) to

  read_u32-ok :
      (offset : ℕ) (calls : List Call) {v : ℕ}
      → ((ctrl_ops os ch base).based_ctrl_read_u32 offset calls).0 ≡ ok v
      → (bytes : List ℕ) × (os.read calls ch.cdev 4 (u64 (base + offset)) ≡ done bytes)
        × (from_le_bytes bytes ≡ v)
  unfolding ctrl_ops
  read_u32-ok offset calls h =
      elim (IoResult-cases (os.read calls ch.cdev 4 (u64 (base + offset)))) [
        | inl (bytes, e) ↦ (bytes, e, ground arith)
        | inr (x, e) ↦ absurd (ground arith)
      ]

  pub readings-Dump :
      {X R : Type 0} (f : BasedError E → X) (offset : R → ℕ) (regs : List R) (calls : List Call)
      {shown : List (R × ℕ)}
      → let get : R → Exec X ℕ =
          λ reg. map_err f ((ctrl_ops os ch base).based_ctrl_read_u32 (offset reg)) in
        (readings get regs calls).0 ≡ ok shown
        → Dump offset regs shown calls (readings get regs calls).1
  unfolding readings
  readings-Dump f offset [] calls h = (ground arith, refl)
  readings-Dump {X} {R} f offset (reg ∷ regs) calls h =
      let read : R → Exec (BasedError E) ℕ =
        λ r. (ctrl_ops os ch base).based_ctrl_read_u32 (offset r) in
      let get : R → Exec X ℕ = λ r. map_err f (read r) in
      let (v, rest, a, b, e, l) = readings-ok get reg regs calls h in
      let got : (read reg calls).0 ≡ ok v = ground arith in
      let (bytes, r, w) = read_u32-ok (offset reg) calls got in
      (
        bytes,
        rest,
        r,
        e ∙ ap (λ n. (reg, n) ∷ rest) (sym w),
        subst
            (λ to.
              Dump offset regs rest (read_exact_at ch.cdev 4 (u64 (base + offset reg)) ∷ calls) to)
            (sym l)
            (subst (λ from. Dump offset regs rest from (readings get regs (read reg calls).1).1)
              (read_u32_calls os ch base (offset reg) calls)
              (readings-Dump f offset regs (read reg calls).1 b)),
      )

module _ {E : Type 0} (os : Os E) (sh : XilinxU55nXdmaStd) where
  abbrev pub c : BasedCtrlOps E
  c = on_ctrl os sh hbicap_ctrl_if

  abbrev pub d : BasedDmaOps E
  d = on_dma os sh hbicap_dma_if

  -- Configuration registers read back one after the other, each once, by the readback protocol
  abbrev pub Readbacks :
      List ConfigLogicReg → List (ConfigLogicReg × ℕ) → List Call → List Call → Type 0
  Readbacks [] shown from to = (shown ≡ []) × (to ≡ from)
  Readbacks (reg ∷ regs) shown from to =
      (bytes : List ℕ) × (rest : List (ConfigLogicReg × ℕ)) × (mid : List Call) × Fetched os
        sh.ctrl_channel 0x0405_0000 sh.dma_channel 0x1000_0000_0000_0000 (readback_opening reg)
        readback_closing 4 bytes from mid
      × (shown ≡ (reg, from_le_bytes (take 4 bytes)) ∷ rest)
      × Readbacks regs rest mid to

  pub readings-Readbacks :
      (regs : List ConfigLogicReg) (calls : List Call) {shown : List (ConfigLogicReg × ℕ)}
      → (readings (config_logic_reg_readback c d) regs calls).0 ≡ ok shown
      → Readbacks regs shown calls (readings (config_logic_reg_readback c d) regs calls).1
  unfolding readings base_addr
  readings-Readbacks [] calls h = (ground arith, refl)
  readings-Readbacks (reg ∷ regs) calls h =
      let (v, rest, a, b, e, l) = readings-ok (config_logic_reg_readback c d) reg regs calls h in
      let (bytes, fetched, w) =
        config_logic_reg_readback-Fetched os sh.ctrl_channel 0x0405_0000 sh.dma_channel
          0x1000_0000_0000_0000 reg calls a in
      let mid : List Call = (config_logic_reg_readback c d reg calls).1 in
      (
        bytes,
        rest,
        mid,
        fetched,
        e ∙ ap (λ n. (reg, n) ∷ rest) w,
        subst (Readbacks regs rest mid) (sym l) (readings-Readbacks regs mid b),
      )
