-- ===== src/Cli/Calm.antt =====
-- Parts of the tool that do not panic, sw/rust/warpshell-cli/src/main.rs.
use Prim.Native.String.{String}
use warpshell.Base.{ℕ, List, Bool, some, ◌≢◌, refl, arith, inl, inr}
use warpshell.System.{File, open_read, IoResult-cases, Os}
use warpshell.Outcome.{Calm, Calm-bind, Calm-map_err, pure, map_err, println}
use warpshell.Cms.{get_cms_reg}
use warpshell.Cms.Calm.{Calm-get_cms_reg}
use warpshell.Cms.Reg.{CmsReg}
use warpshell.Shell.{base_addr, XilinxU55nXdmaStd, program_user_image, cms_core, on_ctrl}
use warpshell.Shell.Calm.{Calm-program_user_image}
use warpshell.Cli.{
  Build, programming_line, print_elapsed, program_and_time, MgmtReading, card_info, fpga_temp,
  hbm_temp, board_power, programming_failed, run_command, read_value, open_bitstream,
  read_bitstream_file, program,
}

pub Calm-pure : {X A : Type 0} (a : A) → Calm (pure {X = X} a)
Calm-pure a s h = absurd (cc h)

pub Calm-println : {X : Type 0} (line : List ℕ) → Calm (println {X = X} line)
Calm-println line s h = absurd (cc h)

module _ {E : Type 0} (os : Os E) (build : Build) where
  Calm-open : (path : String) → Calm (open_bitstream os path)
  unfolding open_bitstream
  Calm-open path s h = elim (IoResult-cases (os.opened s (open_read path))) [
    | inl (f, e) ↦ absurd (ground arith)
    | inr (x, e) ↦ absurd (ground arith)
  ]

  Calm-read_file : (file : File) → Calm (read_bitstream_file os file)
  unfolding read_bitstream_file
  Calm-read_file file s h = elim (IoResult-cases (os.read_all s file)) [
    | inl (f, e) ↦ absurd (ground arith)
    | inr (x, e) ↦ absurd (ground arith)
  ]

  module _ (sh : XilinxU55nXdmaStd) where
    pub Calm-reading : (reg : CmsReg) → Calm (get_cms_reg (on_ctrl os sh cms_core) reg)
    unfolding base_addr
    Calm-reading reg = Calm-get_cms_reg os sh.ctrl_channel 0x0400_0000 reg

    -- A reading other than those of card information and of the board power
    pub Calm-read_value :
        (reading : MgmtReading)
        → reading ≢ card_info
        → reading ≢ board_power
        → Calm (read_value os build sh reading)
    unfolding read_value
    Calm-read_value card_info h k = absurd (h refl)
    Calm-read_value fpga_temp h k =
        Calm-bind (get_cms_reg (on_ctrl os sh cms_core) _) _ (Calm-reading _) λ v. Calm-pure _
    Calm-read_value hbm_temp h k =
        Calm-bind (get_cms_reg (on_ctrl os sh cms_core) _) _ (Calm-reading _) λ v. Calm-pure _
    Calm-read_value board_power h k = absurd (k refl)

    Calm-program_and_time :
        (debug : Bool) (bytes : List ℕ) → Calm (program_and_time os build sh debug bytes)
    unfolding program_and_time print_elapsed
    Calm-program_and_time debug bytes s =
        Calm-bind (map_err programming_failed (program_user_image os sh debug bytes)) _
          (Calm-map_err programming_failed (program_user_image os sh debug bytes)
            (Calm-program_user_image os sh debug bytes))
          (λ u log h. absurd (cc h)) s

    pub Calm-program :
        (debug : Bool) (path : String) → Calm (run_command os build sh debug (some (program path)))
    unfolding run_command
    Calm-program debug path = Calm-bind (open_bitstream os path) _ (Calm-open path) λ file.
        Calm-bind (read_bitstream_file os file) _ (Calm-read_file file) λ bytes.
          Calm-bind (println (programming_line path))
            (λ _. program_and_time os build sh debug bytes) (Calm-println (programming_line path))
            λ u. Calm-program_and_time debug bytes
