-- ===== src/Shell/Phases/Steps.antt =====
-- The writes of `program_user_image`, each accepted or refused by the device.
use warpshell.Base.{ℕ, ◌+◌, List, ◌∷◌, ◌≡◌, refl, ◌⊎◌, inl, inr, arith}
use warpshell.Base.Bytes.{u64, to_le_bytes}
use warpshell.System.{Call, write_all_at, IoResult-cases, Os}
use warpshell.Outcome.{ok, err, Outcome-cases, Exec, ◌>>=◌, ◌>>◌, pure, map_err}
use warpshell.Based.{xdma_error}
use warpshell.Xdma.{ctrl_ops, dma_ops}
use warpshell.Xdma.Error.{dma_write_failed}
use warpshell.Xdma.Transport.{write_u32-cases}
use warpshell.Shell.{XilinxU55nXdmaStd}
use warpshell.Shell.Phases.{Accepts, Refuses}

module _ {E : Type 0} (os : Os E) (sh : XilinxU55nXdmaStd) where
  -- `m` makes the one call, and its outcome is the device's answer.
  abbrev pub Wrote : {X : Type 0} → Exec X Unit → List Call → Call → Type 0
  Wrote {X} m log call =
      (Accepts os log call × (m log ≡ (ok tt, call ∷ log)))
      ⊎ (Refuses os log call × ((e : X) × (m log ≡ (err e, call ∷ log))))

  pub Wrote-map_err :
      {X Y : Type 0} (g : X → Y) (m : Exec X Unit) (log : List Call) (call : Call)
      → Wrote m log call
      → Wrote (map_err g m) log call
  Wrote-map_err g m log call (inl (a, e)) = inl (a, rw e refl)
  Wrote-map_err g m log call (inr (r, (x, e))) = inr (r, (g x, rw e refl))

  pub Wrote-reg :
      (base offset value : ℕ) (log : List Call)
      → Wrote
          ((ctrl_ops os sh.ctrl_channel base).based_ctrl_write_u32 offset value)
          log
          (write_all_at sh.ctrl_channel.cdev (to_le_bytes value) (u64 (base + offset)))
  Wrote-reg base offset value log =
      elim (write_u32-cases os sh.ctrl_channel base offset value log) [
        | inl (a, e) ↦ inl (a, e)
        | inr (x, a, e) ↦ inr ((x, a), (_, e))
      ]

  pub Wrote-dma :
      (base offset : ℕ) (bytes : List ℕ) (log : List Call)
      → Wrote
          ((dma_ops os sh.dma_channel base).based_dma_write bytes offset)
          log
          (write_all_at sh.dma_channel.h2c_cdev bytes (u64 (base + offset)))
  unfolding dma_ops
  Wrote-dma base offset bytes log =
      elim (IoResult-cases (os.written log sh.dma_channel.h2c_cdev bytes (u64 (base + offset)))) [
        | inl (u, e) ↦ inl (e, rw e refl)
        | inr (x, e) ↦ inr ((x, e), (xdma_error (dma_write_failed 0 x), rw e refl))
      ]

pub map_err-bind :
    {X Y A B : Type 0} (g : X → Y) (m : Exec X A) (f : A → Exec X B) (s : List Call)
    → map_err g (m >>= f) s ≡ (map_err g m >>= λ a. map_err g (f a)) s
map_err-bind g m f s = elim (Outcome-cases (m s).0) [
  | inl (a, e) ↦ rw e refl
  | inr (inl (x, e)) ↦ rw e refl
  | inr (inr e) ↦ rw e refl
]

pub bind_pure : {X : Type 0} (m : Exec X Unit) (s : List Call) → m s ≡ (m >> pure tt) s
bind_pure m s = elim (Outcome-cases (m s).0) [
  | inl (a, e) ↦ ground arith
  | inr (inl (x, e)) ↦ ground arith
  | inr (inr e) ↦ ground arith
]
