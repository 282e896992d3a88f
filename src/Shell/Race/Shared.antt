-- ===== src/Shell/Race/Shared.antt =====
-- The shells of threads that call `XilinxU55nXdmaStd::new` of
-- sw/rust/warpshell/src/shells/xilinx_u55n_xdma_std.rs from the same statics.
use warpshell.Base.{ℕ, Option, some, ◌==◌, ◌≡◌, sym, subst, ◌∙◌, arith, inl, inr, Bool-cases}
use warpshell.System.{File}
use warpshell.Outcome.{ok}
use warpshell.Xdma.{
  CtrlChannel, DmaChannel, OnceCellCtrlChannel, OnceCellDmaChannel, init_ctrl, init_dma, fill_once,
}
use warpshell.Shell.{XilinxU55nXdmaStd, Statics}
use warpshell.Shell.Race.{
  Thread, idle, opened_ctrl, has_ctrl, opened_dma, holding, World, update, Step, open_ctrl,
  enter_ctrl, open_dma, enter_dma, again, Reach, here, next,
}

module _ (E : Type 0) where
  -- The channels that a thread has are those of the cells.
  abbrev Shares : Statics → Thread → Type 0
  Shares s (has_ctrl ch) = s.ctrl_cell.channel ≡ some ch
  Shares s (opened_dma ch own) = s.ctrl_cell.channel ≡ some ch
  Shares s (holding sh) =
      (s.ctrl_cell.channel ≡ some sh.ctrl_channel) × (s.dma_cell.channel ≡ some sh.dma_channel)
  Shares s _ = Unit {0}

  ctrl_filled :
      (cell : OnceCellCtrlChannel) (cdev : File) (ch : CtrlChannel)
      → (init_ctrl {E = E} cell (ok cdev)).0 ≡ ok ch
      → (init_ctrl {E = E} cell (ok cdev)).1.channel ≡ some ch
  unfolding init_ctrl fill_once
  ctrl_filled cell cdev ch h = ground arith

  dma_filled :
      (cell : OnceCellDmaChannel) (own dma : DmaChannel)
      → (init_dma {E = E} cell (ok own)).0 ≡ ok dma
      → (init_dma {E = E} cell (ok own)).1.channel ≡ some dma
  unfolding init_dma fill_once
  dma_filled cell own dma h = ground arith

  ctrl_stays :
      (cell : OnceCellCtrlChannel) (cdev : File) (ch : CtrlChannel)
      → cell.channel ≡ some ch
      → (init_ctrl {E = E} cell (ok cdev)).1.channel ≡ some ch
  unfolding init_ctrl fill_once
  ctrl_stays cell cdev ch h = ground arith

  dma_stays :
      (cell : OnceCellDmaChannel) (own dma : DmaChannel)
      → cell.channel ≡ some dma
      → (init_dma {E = E} cell (ok own)).1.channel ≡ some dma
  unfolding init_dma fill_once
  dma_stays cell own dma h = ground arith

  -- A filled cell stays as it is.
  Step-ctrl :
      {w v : World} (ch : CtrlChannel)
      → Step E w v
      → w.statics.ctrl_cell.channel ≡ some ch
      → v.statics.ctrl_cell.channel ≡ some ch
  Step-ctrl ch (open_ctrl i cdev e) h = h
  Step-ctrl {w} ch (enter_ctrl i cdev c e o) h = ctrl_stays w.statics.ctrl_cell cdev ch h
  Step-ctrl ch (open_dma i c a b e) h = h
  Step-ctrl ch (enter_dma i c own d e o) h = h
  Step-ctrl ch (again i sh e) h = h

  Step-dma :
      {w v : World} (dma : DmaChannel)
      → Step E w v
      → w.statics.dma_cell.channel ≡ some dma
      → v.statics.dma_cell.channel ≡ some dma
  Step-dma dma (open_ctrl i cdev e) h = h
  Step-dma dma (enter_ctrl i cdev c e o) h = h
  Step-dma dma (open_dma i c a b e) h = h
  Step-dma {w} dma (enter_dma i c own d e o) h = dma_stays w.statics.dma_cell own dma h
  Step-dma dma (again i sh e) h = h

  -- A step takes nothing from what any thread shares.
  Step-Shares : {w v : World} → Step E w v → (t : Thread) → Shares w.statics t → Shares v.statics t
  Step-Shares s idle h = tt
  Step-Shares s (opened_ctrl f) h = tt
  Step-Shares s (has_ctrl ch) h = Step-ctrl ch s h
  Step-Shares s (opened_dma ch own) h = Step-ctrl ch s h
  Step-Shares s (holding sh) (h, k) = (Step-ctrl sh.ctrl_channel s h, Step-dma sh.dma_channel s k)

  abbrev Inv : World → Type 0
  Inv w = (j : ℕ) → Shares w.statics (w.thread j)

  updated :
      (s : Statics) (threads : ℕ → Thread) (i : ℕ) (t : Thread) (j : ℕ)
      → Shares s t
      → Shares s (threads j)
      → Shares s (update threads i t j)
  updated s threads i t j h k = elim (Bool-cases (j == i)) [ inl e ↦ rw e h | inr e ↦ rw e k ]

  Step-Inv : {w v : World} → Step E w v → Inv w → Inv v
  Step-Inv {w} (open_ctrl i cdev e) inv j =
      updated w.statics w.thread i (opened_ctrl cdev) j tt (inv j)
  Step-Inv {w} (enter_ctrl i cdev ch e o) inv j =
      let after : Statics = record {
        ctrl_cell = (init_ctrl {E = E} w.statics.ctrl_cell (ok cdev)).1;
        dma_cell = w.statics.dma_cell;
      } in
      updated after w.thread i (has_ctrl ch) j (ctrl_filled w.statics.ctrl_cell cdev ch o)
        (Step-Shares {w = w} (enter_ctrl i cdev ch e o) (w.thread j) (inv j))
  Step-Inv {w} (open_dma i ch h2c c2h e) inv j =
      updated w.statics w.thread i (opened_dma ch (record { h2c_cdev = h2c; c2h_cdev = c2h })) j
        (subst (Shares w.statics) e (inv i)) (inv j)
  Step-Inv {w} (enter_dma i ch own dma e o) inv j =
      let after : Statics = record {
        ctrl_cell = w.statics.ctrl_cell;
        dma_cell = (init_dma {E = E} w.statics.dma_cell (ok own)).1;
      } in
      updated after w.thread i (holding (record { ctrl_channel = ch; dma_channel = dma })) j
        (subst (Shares w.statics) e (inv i), dma_filled w.statics.dma_cell own dma o)
        (Step-Shares {w = w} (enter_dma i ch own dma e o) (w.thread j) (inv j))
  Step-Inv {w} (again i sh e) inv j = updated w.statics w.thread i idle j tt (inv j)

  Reach-Inv : {w v : World} → Reach E w v → Inv w → Inv v
  Reach-Inv here inv = inv
  Reach-Inv (next r s) inv = Step-Inv s (Reach-Inv r inv)

  Reach-Shares : {w v : World} (t : Thread) → Reach E w v → Shares w.statics t → Shares v.statics t
  Reach-Shares t here h = h
  Reach-Shares t (next r s) h = Step-Shares s t (Reach-Shares t r h)

  -- Threads that make shells from the same statics, whatever these hold at first and however the
  -- steps of the threads interleave, are given shells with the same channels: the shell that a thread
  -- holds in one state, and one that a thread holds in that or any later state, are equal.
  pub Reach-holding_shells :
      {w u v : World} (i j : ℕ) (sh other : XilinxU55nXdmaStd)
      → ((k : ℕ) → w.thread k ≡ idle)
      → Reach E w u
      → Reach E u v
      → u.thread i ≡ holding sh
      → v.thread j ≡ holding other
      → sh ≡ other
  Reach-holding_shells {w} {u} {v} i j sh other fresh before between h k =
      let start : Inv w = λ n. subst (Shares w.statics) (sym (fresh n)) tt in
      let inv : Inv u = Reach-Inv before start in
      let (mine_ctrl, mine_dma) =
        Reach-Shares (holding sh) between (subst (Shares u.statics) h (inv i)) in
      let (your_ctrl, your_dma) = subst (Shares v.statics) k (Reach-Inv between inv j) in
      let ctrl : sh.ctrl_channel ≡ other.ctrl_channel =
        some-injective (sym mine_ctrl ∙ your_ctrl) in
      let dma : sh.dma_channel ≡ other.dma_channel = some-injective (sym mine_dma ∙ your_dma) in
      λ n. record { ctrl_channel = ctrl n; dma_channel = dma n }
    where
      some-injective : {A : Type 0} {a b : A} → ◌≡◌ {A = Option A} (some a) (some b) → a ≡ b
      some-injective e = cc e
