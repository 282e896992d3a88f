-- ===== src/Cli/Panics.antt =====
-- Panics of the tool, sw/rust/warpshell-cli/src/main.rs.
use warpshell.Base.{ℕ, List, Bool, true, Option, none, some, ◌≡◌, ◌≢◌, ◌↔◌, refl, ap, inl, inr}
use warpshell.System.{Call, Os}
use warpshell.Outcome.{
  ok, panic, Exec, Outcome-cases, bind-panic, map_err-panic, bind-panic_first, Calm-map_err,
  map_err-ok, map_err, println, pure, ◌>>=◌,
}
use warpshell.Cms.{CmsError, get_cms_reg}
use warpshell.Cms.Reg.{
  CmsReg, pex12v_inst, pex12v_current_in_inst, aux12v_inst, aux12v_current_in_inst,
}
use warpshell.Shell
use warpshell.Shell.{XilinxU55nXdmaStd, Statics, cms_core, on_ctrl}
use warpshell.Shell.Calm.{Calm-new, Calm-init}
use warpshell.Cli.{
  Build, Cli, Command, MgmtReading, card_info, fpga_temp, hbm_temp, board_power, measurement,
  milli_w, power, print_config, value_text, reading_failed, cannot_initialise, read_value,
  run_command, program, get, main, with_shell,
}
use warpshell.Cli.Power.{TooLarge, rounded, overflowed, wrapped, power_lem, power-large}
use warpshell.Cli.Calm.{Calm-pure, Calm-println, Calm-reading, Calm-read_value, Calm-program}

bind_pure-panic :
    {X A B : Type 0} (m : Exec X A) (f : A → B) (s : List Call)
    → ((m >>= λ a. pure (f a)) s).0 ≡ panic
    → (m s).0 ≡ panic
bind_pure-panic m f s h = bind-panic_first m (λ a. pure (f a)) s (λ a. Calm-pure (f a)) h

module _ {E : Type 0} (os : Os E) (build : Build) where
  abbrev read : XilinxU55nXdmaStd → CmsReg → Exec (CmsError E) ℕ
  read sh = get_cms_reg (on_ctrl os sh cms_core)

  -- The four readings for the board power after the log `s`, with a product that does not fit into 32
  -- bits
  pub record LargeReadings (sh : XilinxU55nXdmaStd) (s : List Call) : Type 0 where
    pub v : ℕ
    pub i : ℕ
    pub w : ℕ
    pub j : ℕ
    pub s₁ : List Call
    pub s₂ : List Call
    pub s₃ : List Call
    pub s₄ : List Call
    pub voltage : read sh pex12v_inst s ≡ (ok v, s₁)
    pub current : read sh pex12v_current_in_inst s₁ ≡ (ok i, s₂)
    pub voltage_aux : read sh aux12v_inst s₂ ≡ (ok w, s₃)
    pub current_aux : read sh aux12v_current_in_inst s₃ ≡ (ok j, s₄)
    pub too_large : TooLarge v i w j

  power-panics :
      (v i w j : ℕ) (s : List Call)
      → (power {X = CmsError E} build.overflow_checks v i w j s).0 ≡ panic
      → (build.overflow_checks ≡ true) × TooLarge v i w j
  power-panics v i w j s h = elim (power_lem {X = CmsError E} build.overflow_checks v i w j s) [
    | rounded p a e b ↦ absurd (cc (ap (λ r. r.0) e, h))
    | overflowed l k e ↦ (k, l)
    | wrapped p l k e q ↦ absurd (cc (ap (λ r. r.0) e, h))
  ]

  module _ (sh : XilinxU55nXdmaStd) where
    known :
        (reg : CmsReg) (s : List Call) {v : ℕ}
        → (read sh reg s).0 ≡ ok v
        → read sh reg s ≡ (ok v, (read sh reg s).1)
    known reg s e = ap (λ o. (o, (read sh reg s).1)) e

    board_power-panics :
        (s : List Call)
        → (read_value os build sh board_power s).0 ≡ panic
        → (build.overflow_checks ≡ true) × LargeReadings sh s
    unfolding read_value
    board_power-panics s h =
        let (v, e₁, h₁) = bind-panic (read sh pex12v_inst) _ s (Calm-reading os build sh _) h in
        let (i, e₂, h₂) =
          bind-panic (read sh pex12v_current_in_inst) _ _ (Calm-reading os build sh _) h₁ in
        let (w, e₃, h₃) = bind-panic (read sh aux12v_inst) _ _ (Calm-reading os build sh _) h₂ in
        let (j, e₄, h₄) =
          bind-panic (read sh aux12v_current_in_inst) _ _ (Calm-reading os build sh _) h₃ in
        let panicked =
          bind_pure-panic (power build.overflow_checks v i w j) (λ p. measurement p milli_w) _ h₄ in
        let (checked, large) = power-panics v i w j _ panicked in
        (
          checked,
          record {
            v = v;
            i = i;
            w = w;
            j = j;
            s₁ = _;
            s₂ = _;
            s₃ = _;
            s₄ = _;
            voltage = known pex12v_inst s e₁;
            current = known pex12v_current_in_inst _ e₂;
            voltage_aux = known aux12v_inst _ e₃;
            current_aux = known aux12v_current_in_inst _ e₄;
            too_large = large;
          },
        )

    board_power-overflows :
        (s : List Call)
        → build.overflow_checks ≡ true
        → LargeReadings sh s
        → (read_value os build sh board_power s).0 ≡ panic
    unfolding read_value
    board_power-overflows s checked r =
        rw
          (
            r.voltage,
            r.current,
            r.voltage_aux,
            r.current_aux,
            power-large {X = CmsError E} build.overflow_checks r.v r.i r.w r.j r.s₄ r.too_large
                checked,
          )
          refl

    read_value-panics :
        (reading : MgmtReading) (s : List Call)
        → reading ≢ card_info
        → (read_value os build sh reading s).0 ≡ panic
        → (reading ≡ board_power) × (build.overflow_checks ≡ true) × LargeReadings sh s
    read_value-panics card_info s other h = absurd (other refl)
    read_value-panics fpga_temp s other h =
        absurd (Calm-read_value os build sh fpga_temp other (λ e. cc e) s h)
    read_value-panics hbm_temp s other h =
        absurd (Calm-read_value os build sh hbm_temp other (λ e. cc e) s h)
    read_value-panics board_power s other h =
        let (checked, large) = board_power-panics s h in (refl, checked, large)

    run_command-panics :
        (debug : Bool) (command : Option Command) (s : List Call)
        → command ≢ some (get card_info)
        → (run_command os build sh debug command s).0 ≡ panic
        → (command ≡ some (get board_power)) × (build.overflow_checks ≡ true) × LargeReadings sh s
    unfolding run_command
    run_command-panics debug none s other h = absurd (cc h)
    run_command-panics debug (some (program path)) s other h =
        absurd (Calm-program os build sh debug path s h)
    run_command-panics debug (some (get reading)) s other h =
        let reads = map_err-panic reading_failed (read_value os build sh reading) s (
          bind-panic_first (map_err reading_failed (read_value os build sh reading))
            (λ v. println (value_text build v)) s (λ v. Calm-println (value_text build v)) h) in
        let (r, checked, large) =
          read_value-panics reading s (λ e. other (ap (λ r. some (get r)) e)) reads in
        (ap (λ r. some (get r)) r, checked, large)

  -- The tool, built with overflow checks, has a shell that is initialised, is asked for the board power,
  -- and reads values of which a product does not fit into 32 bits.
  pub record Overflows (statics : Statics) (cli : Cli) (calls : List Call) : Type 0 where
    pub checked : build.overflow_checks ≡ true
    pub asked : cli.command ≡ some (get board_power)
    pub sh : XilinxU55nXdmaStd
    pub connected : (Shell.new os statics (print_config cli.config calls)).0 ≡ ok sh
    pub begun :
        (Shell.init os sh (Shell.new os statics (print_config cli.config calls)).2).0 ≡ ok tt
    pub readings :
        LargeReadings sh
          (Shell.init os sh (Shell.new os statics (print_config cli.config calls)).2).1

  module _ (statics : Statics) (debug : Bool) (cli : Cli)
      (other : cli.command ≢ some (get card_info)) (calls : List Call) where
    before : List Call
    before = (Shell.new os statics (print_config cli.config calls)).2

    main-Overflows : (main os build statics debug cli calls).0 ≡ panic → Overflows statics cli calls
    unfolding main with_shell before
    main-Overflows h =
        elim (Outcome-cases (Shell.new os statics (print_config cli.config calls)).0) [
          | inl (sh, e) ↦
              let (u, i, k) =
                bind-panic (map_err cannot_initialise (Shell.init os sh)) _ before
                  (Calm-map_err cannot_initialise (Shell.init os sh) (Calm-init os sh))
                  (rw e at h) in
              let (asked, checked, large) =
                run_command-panics sh debug cli.command (Shell.init os sh before).1 other k in
              record {
                checked = checked;
                asked = asked;
                sh = sh;
                connected = e;
                begun = map_err-ok cannot_initialise (Shell.init os sh) before i;
                readings = large;
              }
          | inr (inl (x, e)) ↦ absurd (cc (rw e at h))
          | inr (inr e) ↦ absurd (Calm-new os statics (print_config cli.config calls) e)
        ]

    main-panics : Overflows statics cli calls → (main os build statics debug cli calls).0 ≡ panic
    unfolding main with_shell run_command
    main-panics o =
        let reading = board_power-overflows o.sh _ o.checked o.readings in
        rw (o.asked, o.connected, o.begun, reading) refl

    -- The tool, with a command other than `get card-info`, panics exactly if it was built with overflow
    -- checks, is asked for the board power, has a shell that is initialised, and reads a voltage and a
    -- current whose product does not fit into 32 bits. So a build for release panics for no command but
    -- `get card-info`, and a build with overflow checks for none but that and `get board-power`,
    -- whatever the devices answer.
    pub main-panic_iff :
        ((main os build statics debug cli calls).0 ≡ panic) ↔ Overflows statics cli calls
    main-panic_iff = (main-Overflows, main-panics)
