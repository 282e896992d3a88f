-- ===== src/Cli/Costs.antt =====
-- How long the tool, sw/rust/warpshell-cli/src/main.rs, can keep its user waiting.
use Prim.Native.String.{String}
use warpshell.Base.{
  ℕ, ◌+◌, ◌≤◌, List, Bool, Option, none, some, ◌≡◌, refl, ap, arith, length, inl, inr,
}
use warpshell.System.{File, Call, Os}
use warpshell.Outcome.{Outcome-cases, ok, map_err, pure, println}
use warpshell.Outcome.Costs.{slept, Costs, Costs-bind, Costs-map_err, Costs-none, Costs-le}
use warpshell.Cms.{CmsError, get_cms_reg, get_card_info}
use warpshell.Cms.Costs.{get_cms_reg-Costs, get_card_info-Costs}
use warpshell.Cms.Reg.{
  CmsReg, fpga_temp_inst, hbm0_temp_inst, pex12v_inst, pex12v_current_in_inst, aux12v_inst,
  aux12v_current_in_inst,
}
use warpshell.Shell
use warpshell.Shell.{XilinxU55nXdmaStd, Statics, base_addr, program_user_image, cms_core, on_ctrl}
use warpshell.Shell.Costs.{new_costs, init-Costs, program_user_image-Costs}
use warpshell.Cli.Power.{power_log}
use warpshell.Cli.{
  CliError, Build, Cli, programming_line, value_text, print_elapsed, program_and_time, print_config,
  Command, MgmtReading, card_info_value, measurement, c, milli_w, power, card_info, fpga_temp,
  hbm_temp, board_power, programming_failed, reading_failed, cannot_initialise, run_command,
  read_value, open_bitstream, read_bitstream_file, program, get, main, with_shell,
}

module _ {E : Type 0} (os : Os E) (build : Build) where
  open-Costs : (path : String) → Costs 1 0 (open_bitstream os path)
  unfolding open_bitstream
  open-Costs path = record { calls = λ s. omega arith; time = λ s. omega arith }

  read_file-Costs : (file : File) → Costs 1 0 (read_bitstream_file os file)
  unfolding read_bitstream_file
  read_file-Costs file = record { calls = λ s. omega arith; time = λ s. omega arith }

  println-Costs : (line : List ℕ) → Costs 1 0 (println {X = CliError E} line)
  println-Costs line = record { calls = λ s. omega arith; time = λ s. omega arith }

  elapsed-Costs : (start : List Call) → Costs 1 0 (print_elapsed os build start)
  unfolding print_elapsed
  elapsed-Costs start = record { calls = λ s. omega arith; time = λ s. omega arith }

  print_config_costs :
      (config : Option String) (s : List Call)
      → (length (print_config config s) ≤ length s + 1) × (slept (print_config config s) ≡ slept s)
  unfolding print_config
  print_config_costs none s = (omega arith, refl)
  print_config_costs (some path) s = (omega arith, refl)

  module _ (sh : XilinxU55nXdmaStd) where
    reading-Costs : (reg : CmsReg) → Costs 1 0 (get_cms_reg (on_ctrl os sh cms_core) reg)
    reading-Costs reg = get_cms_reg-Costs os sh.ctrl_channel (base_addr cms_core) reg

    power-Costs : (v i w j : ℕ) → Costs 0 0 (power {X = CmsError E} build.overflow_checks v i w j)
    power-Costs v i w j = record {
      calls =
          λ s. omega (arith, ap length (power_log (CmsError E) build.overflow_checks v i w j s));
      time = λ s. omega (arith, ap slept (power_log (CmsError E) build.overflow_checks v i w j s));
    }

    read_value-Costs :
        (reading : MgmtReading) → Costs 1231 1_000_000_000 (read_value os build sh reading)
    unfolding read_value
    read_value-Costs card_info =
        Costs-bind (get_card_info (on_ctrl os sh cms_core)) _
          (get_card_info-Costs os sh.ctrl_channel (base_addr cms_core))
          λ info. Costs-none (ok (card_info_value info))
    read_value-Costs fpga_temp =
        Costs-le (read_value os build sh fpga_temp) (omega arith) (omega arith) (
          Costs-bind (get_cms_reg (on_ctrl os sh cms_core) fpga_temp_inst) _
            (reading-Costs fpga_temp_inst) λ v. Costs-none (ok (measurement v c)))
    read_value-Costs hbm_temp =
        Costs-le (read_value os build sh hbm_temp) (omega arith) (omega arith) (
          Costs-bind (get_cms_reg (on_ctrl os sh cms_core) hbm0_temp_inst) _
            (reading-Costs hbm0_temp_inst) λ v. Costs-none (ok (measurement v c)))
    read_value-Costs board_power =
        let read = get_cms_reg (on_ctrl os sh cms_core) in
        Costs-le (read_value os build sh board_power) (omega arith) (omega arith) (
          Costs-bind (read pex12v_inst) _ (reading-Costs pex12v_inst) λ v.
            Costs-bind (read pex12v_current_in_inst) _ (reading-Costs pex12v_current_in_inst) λ i.
              Costs-bind (read aux12v_inst) _ (reading-Costs aux12v_inst) λ w.
                Costs-bind (read aux12v_current_in_inst) _ (reading-Costs aux12v_current_in_inst)
                  λ j.
                    Costs-bind (power build.overflow_checks v i w j) _ (power-Costs v i w j)
                      λ p. Costs-none (ok (measurement p milli_w)))

    program_and_time-Costs :
        (debug : Bool) (bytes : List ℕ)
        → Costs 8012 40_000_000_000 (program_and_time os build sh debug bytes)
    unfolding program_and_time
    program_and_time-Costs debug bytes =
        let costs : (start : List Call) → Costs 8012 40_000_000_000 _ = λ start.
          Costs-bind (map_err programming_failed (program_user_image os sh debug bytes)) _
            (Costs-map_err programming_failed (program_user_image os sh debug bytes)
              (program_user_image-Costs os sh debug bytes))
            (λ _. elapsed-Costs start) in
        record { calls = λ s. (costs s).calls s; time = λ s. (costs s).time s }

    run_command-Costs :
        (debug : Bool) (command : Option Command)
        → Costs 8015 40_000_000_000 (run_command os build sh debug command)
    unfolding run_command
    run_command-Costs debug none =
        Costs-le (pure tt) (omega arith) (omega arith) (Costs-none (ok tt))
    run_command-Costs debug (some (program path)) =
        Costs-bind (open_bitstream os path) _ (open-Costs path) λ file.
          Costs-bind (read_bitstream_file os file) _ (read_file-Costs file) λ bytes.
            Costs-bind (println (programming_line path)) _ (println-Costs (programming_line path))
              λ _. program_and_time-Costs debug bytes
    run_command-Costs debug (some (get reading)) =
        Costs-le (run_command os build sh debug (some (get reading))) (omega arith) (omega arith) (
          Costs-bind (map_err reading_failed (read_value os build sh reading)) _
            (Costs-map_err reading_failed (read_value os build sh reading)
              (read_value-Costs reading))
            λ v. println-Costs (value_text build v))

    with_shell-Costs :
        (debug : Bool) (command : Option Command)
        → Costs 10019 41_000_000_000 (with_shell os build debug command (ok sh))
    unfolding with_shell
    with_shell-Costs debug command =
        Costs-bind (map_err cannot_initialise (Shell.init os sh)) _
          (Costs-map_err cannot_initialise (Shell.init os sh) (init-Costs os sh))
          λ _. run_command-Costs debug command

  -- Whatever is answered, and whether or not it succeeds, the tool comes to an end, for every command,
  -- within 10023 system calls and 41 s of sleep.
  pub main_costs :
      (statics : Statics) (debug : Bool) (cli : Cli) (calls : List Call)
      → (length (main os build statics debug cli calls).1 ≤ length calls + 10023)
        × (slept (main os build statics debug cli calls).1 ≤ slept calls + 41_000_000_000)
  unfolding main with_shell print_config
  main_costs statics debug cli calls =
      let before : List Call = print_config cli.config calls in
      let log : List Call = (Shell.new os statics before).2 in
      let (short, same) = print_config_costs cli.config calls in
      let (few, awake) = new_costs os statics before in
      elim (Outcome-cases (Shell.new os statics before).0) [
        | inl (sh, e) ↦
            let costs = with_shell-Costs sh debug cli.command in
            rw e (
              omega (arith, short, few, costs.calls log),
              omega (arith, same, awake, costs.time log),
            )
        | inr (inl (x, e)) ↦ rw e (omega (arith, short, few), omega (arith, same, awake))
        | inr (inr e) ↦ rw e (omega (arith, short, few), omega (arith, same, awake))
      ]
