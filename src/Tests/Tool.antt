-- ===== src/Tests/Tool.antt =====
-- Runs of the theorems on the command line tool.
use warpshell.Base.{
  ℕ, zero, suc, List, All, replicate, arith, ◌+◌, ◌≤◌, [], length, ◌∷◌, true, some, none, ◌≡◌, ◌≢◌,
  ◌↔◌, refl,
}
use warpshell.Outcome.{ok, panic}
use warpshell.Xdma.{ctrl_channel, dma_channel0}
use warpshell.Shell.{Statics, XilinxU55nXdmaStd}
use warpshell.Cli.{Cli, main, program, get, card_info, fpga_temp, board_power}
use warpshell.Cli.Panics.{Overflows, main-panic_iff}
use warpshell.Base.Bytes.{IsByte}
use warpshell.System.{Call, print_line, done, Os, IsExact}
use warpshell.Cms.CardInfo.Text.{Text}
use warpshell.Cms.{get_cms_reg}
use warpshell.Cli.{MeasurementUnit, measurement, run_command, read_value, value_text}
use warpshell.Cli.Digits.{leading_number, run_command-get}
use warpshell.Outcome.Costs.{slept}
use warpshell.Cli.Costs.{main_costs}
use warpshell.Cms.{get_card_info}
use warpshell.Cms.Answered.Cases.{Answered}
use warpshell.Cms.Answered.{get_card_info-Answered}
use warpshell.Xdma.{ctrl_ops}
use warpshell.Cli.Traced.{Traced, main-Traced}
use warpshell.Cli.Live.{Working, main-Working}
use warpshell.Tests.Device.{card, build}
use warpshell.Tests.Phases.{card-Obliging, card-Ready}

abbrev fresh : Statics
fresh = record { ctrl_cell = ctrl_channel; dma_cell = dma_channel0 }

abbrev user : Cli
user = record { config = none; command = some (program "user.bin") }

abbrev board : Cli
board = record { config = none; command = some (get board_power) }

other_command : board.command ≢ some (get card_info)
other_command h = cc h

main-panic_iff_example :
    ((main card build fresh true board []).0 ≡ panic) ↔ Overflows card build fresh board []
main-panic_iff_example = main-panic_iff card build fresh true board other_command []

card-Working : Working card fresh true none []
card-Working = record {
  opens = λ log call. (length log, refl);
  contents = λ log file. (1 ∷ 2 ∷ 3 ∷ [], refl);
  obliging = λ shell got. card-Obliging shell;
  ready = λ shell got. card-Ready shell.ctrl_channel;
}

main-Working_example : (main card build fresh true user []).0 ≡ ok tt
main-Working_example = main-Working card fresh true none [] card-Working build "user.bin"

main_costs_example :
    (length (main card build fresh true user []).1 ≤ length {A = Call} [] + 10023)
    × (slept (main card build fresh true user []).1 ≤ slept [] + 41_000_000_000)
main_costs_example = main_costs card build fresh true user []

get_card_info-Answered_example :
    Answered card
      (record { cdev = 0 })
      0x0400_0000
      []
      (get_card_info (ctrl_ops card (record { cdev = 0 }) 0x0400_0000) [])
get_card_info-Answered_example = get_card_info-Answered card (record { cdev = 0 }) 0x0400_0000 []

abbrev bytes_of : ℕ → List ℕ
bytes_of len = replicate len 1

bytes_of-IsByte : (len : ℕ) → (length (bytes_of len) ≡ len) × All IsByte (bytes_of len)
bytes_of-IsByte zero = (refl, tt)
bytes_of-IsByte (suc len) = let (l, b) = bytes_of-IsByte len in (omega (arith, l), (omega arith, b))

abbrev ones : Os (Unit {0})
ones = record card { read = λ calls file len address. done (bytes_of len) }

ones-IsExact : IsExact ones
ones-IsExact = record {
  fills = λ calls file len offset bytes e.
      let same : bytes_of len ≡ bytes = cc e in rw same at (bytes_of-IsByte len);
}

abbrev on_ones : XilinxU55nXdmaStd
on_ones = record {
  ctrl_channel = record { cdev = 0 };
  dma_channel = record { h2c_cdev = 1; c2h_cdev = 2 };
}

gets : (run_command ones build on_ones true (some (get fpga_temp)) []).0 ≡ ok tt
unfolding run_command read_value get_cms_reg ctrl_ops value_text
gets = refl

run_command-get_example :
    (n : ℕ) × (u : MeasurementUnit) × (line : Text) × ((read_value ones build on_ones fpga_temp
        []).0
      ≡ ok (measurement n u))
    × ((run_command ones build on_ones true (some (get fpga_temp)) []).1
        ≡ print_line line ∷ (read_value ones build on_ones fpga_temp []).1)
    × (leading_number line ≡ n)
run_command-get_example =
    run_command-get ones build on_ones ones-IsExact true fpga_temp [] (λ h. cc h) gets

programs : (main card build fresh true user []).0 ≡ ok tt
programs = main-Working card fresh true none [] card-Working build "user.bin"

main-Traced_example :
    Traced card build fresh true none "user.bin" [] (main card build fresh true user []).1
main-Traced_example = main-Traced card build fresh true none "user.bin" [] programs
