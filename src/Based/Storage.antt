-- ===== src/Based/Storage.antt =====
-- Laws that a control interface may have: its registers read as 32-bit words, and a register is
-- storage, which reads as what was last written.
use warpshell.Base.{ℕ, List, ◌^◌, ◌<◌, ◌≡◌}
use warpshell.System.{Call}
use warpshell.Outcome.{ok}
use warpshell.Based.{BasedCtrlOps}

pub record ReadsWords {E : Type 0} (c : BasedCtrlOps E) : Type 0 where
  pub is_word :
      (offset v : ℕ) (calls : List Call)
      → (c.based_ctrl_read_u32 offset calls).0 ≡ ok v
      → v < 2 ^ 32

pub record IsStorage {E : Type 0} (c : BasedCtrlOps E) (offset : ℕ) : Type 0 where
  pub stored :
      (v : ℕ) (calls : List Call)
      → v < 2 ^ 32
      → (c.based_ctrl_write_u32 offset v calls).0 ≡ ok tt
      → (c.based_ctrl_read_u32 offset (c.based_ctrl_write_u32 offset v calls).1).0 ≡ ok v
