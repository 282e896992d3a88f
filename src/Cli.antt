-- ===== src/Cli.antt =====
-- sw/rust/warpshell-cli/src/main.rs: what the command line tool does with the card and prints, for
-- arguments that clap has parsed.
pub mod Power
pub mod Program
pub mod Calm
pub mod Panics
pub mod Costs
pub mod Live
pub mod Digits
pub mod Traced
use Prim.Native.String.{String}
use warpshell.Base.{
  ℕ, zero, suc, ◌+◌, ◌*◌, ◌/◌, ◌%◌, ◌^◌, List, [], ◌∷◌, ◌++◌, Option, none, some, Bool, ltb,
  if◌then◌else◌,
}
use warpshell.Base.Bytes.{u32}
use warpshell.System.{File, Call, open_read, read_to_end, print_line, Os}
use warpshell.Outcome.{
  Outcome, ok, err, panic, Exec, ◌>>=◌, ◌>>◌, pure, raise, panics, map_err, println,
}
use warpshell.Xdma.{io_outcome}
use warpshell.Cms.{CmsError, get_cms_reg, get_card_info}
use warpshell.Cms.Reg.{
  fpga_temp_inst, hbm0_temp_inst, pex12v_inst, pex12v_current_in_inst, aux12v_inst,
  aux12v_current_in_inst,
}
use warpshell.Cms.CardInfo.Item.{CardInfoItem}
use warpshell.Cms.CardInfo.Text.{Text, codes, card_info_as_string}
use warpshell.Shell
use warpshell.Shell.{ShellError, Statics, XilinxU55nXdmaStd, cms_core, on_ctrl, program_user_image}

pub data MgmtReading : Type 0 where
  card_info fpga_temp hbm_temp board_power : MgmtReading

pub data Command : Type 0 where
  program : String → Command
  get : MgmtReading → Command

pub data MeasurementUnit : Type 0 where
  c milli_w : MeasurementUnit

pub data MgmtValue : Type 0 where
  card_info_value : List CardInfoItem → MgmtValue
  measurement : ℕ → MeasurementUnit → MgmtValue

pub record Cli : Type 0 where
  pub config : Option String
  pub command : Option Command

-- `anyhow::Error`, by where it comes from
pub data CliError (E : Type 0) : Type 0 where
  failed_to_connect cannot_initialise programming_failed : ShellError E → CliError E
  cannot_open_file cannot_read_file : E → CliError E
  reading_failed : CmsError E → CliError E

-- How the tool is built, and texts from outside: whether the build profile checks arithmetic for
-- overflow, as that for development does and that for release does not; what amplify's
-- `#[display(doc_comments)]` makes of a doc comment; and `{:?}` of the time between two points of a run
pub record Build : Type 0 where
  pub overflow_checks : Bool
  pub doc_comment : String → Text
  pub elapsed : List Call → List Call → Text

-- A product or a sum on `u32`, from the exact one: where it does not fit, it panics in a build with
-- overflow checks and wraps round in another.
unfoldable pub on_u32 : {X : Type 0} → Bool → ℕ → Exec X ℕ
on_u32 checks n = if ltb n (2 ^ 32) then pure n else (if checks then panics else pure (u32 n))

-- The formula of `BoardPower`
unfoldable pub power : {X : Type 0} → Bool → ℕ → ℕ → ℕ → ℕ → Exec X ℕ
unfolding on_u32
power checks voltage current voltage_aux current_aux = do
  p ← on_u32 checks (voltage * current)
  q ← on_u32 checks (voltage_aux * current_aux)
  on_u32 checks (p / 1000 + q / 1000)

-- The decimal digits of a number, at most as many as the fuel
unfoldable pub digits : ℕ → ℕ → Text
digits zero n = []
digits (suc fuel) n =
    let rest = digits fuel (n / 10) in
    if ltb n 10 then (b'0' + n) ∷ [] else rest ++ (b'0' + n % 10) ∷ []

-- A `u32` in decimal
abbrev pub decimal_u32 : ℕ → Text
decimal_u32 n = digits 10 n

unfoldable pub unit_text : Build → MeasurementUnit → Text
unit_text build c = build.doc_comment " C"
unit_text build milli_w = build.doc_comment " mW"

unfoldable pub value_text : Build → MgmtValue → Text
unfolding card_info_as_string digits unit_text
value_text build (card_info_value info) = card_info_as_string info
value_text build (measurement v u) = decimal_u32 v ++ (codes " " ++ unit_text build u)

-- The two lines of the `program` command
unfoldable pub programming_line : String → Text
programming_line path = codes "Programming bitstream file " ++ codes path

unfoldable pub finished_line : Text → Text
finished_line elapsed = codes "Programming finished in " ++ elapsed

-- `if let Some(config) = cli.config`
unfoldable pub print_config : Option String → List Call → List Call
print_config none calls = calls
print_config (some path) calls = print_line (codes "Config file: " ++ codes path) ∷ calls

module _ {E : Type 0} (os : Os E) where
  unfoldable pub open_bitstream : String → Exec (CliError E) File
  unfolding io_outcome
  open_bitstream path calls =
      (io_outcome cannot_open_file (os.opened calls (open_read path)), open_read path ∷ calls)

  unfoldable pub read_bitstream_file : File → Exec (CliError E) (List ℕ)
  unfolding io_outcome
  read_bitstream_file file calls =
      (io_outcome cannot_read_file (os.read_all calls file), read_to_end file ∷ calls)

  module _ (build : Build) where
    unfoldable pub read_value : XilinxU55nXdmaStd → MgmtReading → Exec (CmsError E) MgmtValue
    unfolding power
    read_value sh card_info = do
      info ← get_card_info (on_ctrl os sh cms_core)
      pure (card_info_value info)
    read_value sh fpga_temp = do
      v ← get_cms_reg (on_ctrl os sh cms_core) fpga_temp_inst
      pure (measurement v c)
    read_value sh hbm_temp = do
      v ← get_cms_reg (on_ctrl os sh cms_core) hbm0_temp_inst
      pure (measurement v c)
    read_value sh board_power = do
      voltage ← get_cms_reg (on_ctrl os sh cms_core) pex12v_inst
      current ← get_cms_reg (on_ctrl os sh cms_core) pex12v_current_in_inst
      voltage_aux ← get_cms_reg (on_ctrl os sh cms_core) aux12v_inst
      current_aux ← get_cms_reg (on_ctrl os sh cms_core) aux12v_current_in_inst
      p ← power build.overflow_checks voltage current voltage_aux current_aux
      pure (measurement p milli_w)

    -- `println!("Programming finished in {elapsed:?}")`
    unfoldable pub print_elapsed : List Call → Exec (CliError E) Unit
    print_elapsed start calls = println (finished_line (build.elapsed start calls)) calls

    unfoldable pub program_and_time : XilinxU55nXdmaStd → Bool → List ℕ → Exec (CliError E) Unit
    program_and_time sh debug bitstream start =
        (map_err programming_failed (program_user_image os sh debug bitstream)
            >> print_elapsed start)
          start

    -- `match &cli.command`
    unfoldable pub run_command : XilinxU55nXdmaStd → Bool → Option Command → Exec (CliError E) Unit
    unfolding open_bitstream read_bitstream_file programming_line finished_line value_text
        print_elapsed program_and_time
    run_command sh debug none = pure tt
    run_command sh debug (some (program path)) = do
      file ← open_bitstream path
      bitstream ← read_bitstream_file file
      println (programming_line path)
      program_and_time sh debug bitstream
    run_command sh debug (some (get reading)) = do
      v ← map_err reading_failed (read_value sh reading)
      println (value_text build v)

    with_shell :
        Bool → Option Command → Outcome (ShellError E) XilinxU55nXdmaStd → Exec (CliError E) Unit
    with_shell debug command (ok sh) = do
      map_err cannot_initialise (Shell.init os sh)
      run_command sh debug command
    with_shell debug command (err e) = raise (failed_to_connect e)
    with_shell debug command panic = panics

    unfoldable pub main : Statics → Bool → Cli → Exec (CliError E) Unit
    unfolding with_shell print_config
    main statics debug cli calls =
        let connected = Shell.new os statics (print_config cli.config calls) in
        with_shell debug cli.command connected.0 connected.2
