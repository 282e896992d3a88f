-- ===== src/Examples/CardInfo.antt =====
-- sw/rust/warpshell/examples/card_info.rs, with the text that it prints, and the tool's `get card-info`.
use warpshell.Base.{List, Bool, none, some, ◌≡◌, refl, inl, inr}
use warpshell.System.{Call, Os}
use warpshell.Outcome.{Outcome, ok, err, panic, Outcome-cases, ◌>>=◌, ◌>>◌, println, panics}
use warpshell.Cms.{get_card_info}
use warpshell.Cms.CardInfo.Text.{card_info_as_string}
use warpshell.Shell
use warpshell.Shell.{ShellError, Statics, XilinxU55nXdmaStd, cms_core, on_ctrl}
use warpshell.Cli
use warpshell.Cli.{Build, print_config, value_text, card_info, get, run_command, read_value}
use warpshell.Examples.{Program, expect, expected}

module _ {E : Type 0} (os : Os E) where
  unfoldable pub with_shell : Outcome (ShellError E) XilinxU55nXdmaStd → Program Unit
  unfolding expect
  with_shell (ok sh) = do
    expect (Shell.init os sh)
    info ← expect (get_card_info (on_ctrl os sh cms_core))
    println (card_info_as_string info)
  with_shell (err e) = panics
  with_shell panic = panics

  unfoldable pub main : Statics → Program Unit
  unfolding with_shell
  main statics calls =
      let connected = Shell.new os statics calls in with_shell connected.0 connected.2

  -- The example makes exactly the calls of the tool's command `get card-info` without a config file, the printing of the
  -- card information among them, and panics where the command returns an error.
  pub main-get_card_info :
      (build : Build) (statics : Statics) (debug : Bool) (calls : List Call)
      → let tool =
          Cli.main os build statics debug
            (record { config = none; command = some (get card_info) })
            calls in
        main statics calls ≡ (expected tool.0, tool.1)
  unfolding main with_shell Cli.main print_config run_command read_value value_text expect
  main-get_card_info build statics debug calls =
      let log : List Call = (Shell.new os statics calls).2 in
      elim (Outcome-cases (Shell.new os statics calls).0) [
        | inl (sh, e) ↦ elim (Outcome-cases (Shell.init os sh log).0) [
          | inl (u, i) ↦
              elim (Outcome-cases
                (get_card_info (on_ctrl os sh cms_core) (Shell.init os sh log).1).0) [
                  | inl (info, g) ↦ rw (e, i, g) refl
                  | inr (inl (x, g)) ↦ rw (e, i, g) refl
                  | inr (inr g) ↦ rw (e, i, g) refl
                ]
          | inr (inl (x, i)) ↦ rw (e, i) refl
          | inr (inr i) ↦ rw (e, i) refl
        ]
        | inr (inl (x, e)) ↦ rw e refl
        | inr (inr e) ↦ rw e refl
      ]
