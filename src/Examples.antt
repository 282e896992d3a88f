-- ===== src/Examples.antt =====
-- The example programs of the library, sw/rust/warpshell/examples.
pub mod CardInfo
pub mod U55nRegs
use warpshell.Base.{List}
use warpshell.System.{Call}
use warpshell.Outcome.{Outcome, ok, err, panic, Exec}

-- A program that has no error left: what fails, panics.
abbrev pub Program : Type 0 → Type 0
Program A = Exec ⊥ A

abbrev pub expected : {X A : Type 0} → Outcome X A → Outcome ⊥ A
expected (ok a) = ok a
expected (err e) = panic
expected panic = panic

-- `Result::expect`
unfoldable pub expect : {X A : Type 0} → Exec X A → Program A
expect m calls = (expected (m calls).0, (m calls).1)
