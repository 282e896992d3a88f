-- ===== src/Cli/Live.antt =====
-- Programming with the tool, sw/rust/warpshell-cli/src/main.rs, on a device that answers.
use Prim.Native.String.{String}
use warpshell.Base.{ℕ, List, ◌∷◌, Bool, Option, some, ◌≡◌, refl, ap, ◌∙◌, inl, inr}
use warpshell.System.{
  File, Call, open_read, open_read_write, create, read_to_end, print_line, done, Os,
}
use warpshell.Outcome.{ok, map_error}
use warpshell.Xdma.{
  fill_once, CtrlChannel, DmaChannel, OnceCellCtrlChannel, OnceCellDmaChannel, ctrl_get_or_init,
  dma_get_or_init,
}
use warpshell.Cms.Live.{Ready, init-Ready}
use warpshell.Shell.{XilinxU55nXdmaStd, Statics, base_addr, cms, init, new, open_dma, with_channels}
use warpshell.Shell.Phases.Live.{Obliging, program_user_image-Obliging}
use warpshell.Cli.{
  Build, print_config, programming_line, program_and_time, print_elapsed, run_command,
  open_bitstream, read_bitstream_file, program, main, with_shell,
}

module _ {E : Type 0} (os : Os E) (statics : Statics) (debug : Bool) (config : Option String)
    (calls : List Call) where
  -- The log when the shell is asked for
  abbrev pub before : List Call
  before = print_config config calls

  -- Files can be opened and read. The device behind the channels that the shell gets accepts every
  -- write, is seen idle in time, and has a CMS core with the supported register map that is ready in
  -- time.
  pub record Working : Type 0 where
    pub opens : (log : List Call) (call : Call) → (file : File) × (os.opened log call ≡ done file)
    pub contents :
        (log : List Call) (file : File) → (bytes : List ℕ) × (os.read_all log file ≡ done bytes)
    pub obliging :
        (sh : XilinxU55nXdmaStd) → (new os statics before).0 ≡ ok sh → Obliging os sh debug
    pub ready :
        (sh : XilinxU55nXdmaStd)
        → (new os statics before).0 ≡ ok sh
        → Ready os sh.ctrl_channel 0x0400_0000 0x7473_6574

  module _ (working : Working) where
    ctrl_opened :
        (cell : OnceCellCtrlChannel) (log : List Call)
        → (ch : CtrlChannel) × ((ctrl_get_or_init os cell log).0 ≡ ok ch)
    unfolding ctrl_get_or_init
    ctrl_opened cell log =
        let (f, e) = working.opens log (open_read_write cell.cdev_path) in
        (fill_once cell.channel (record { cdev = f }), rw e refl)

    dma_opened :
        (cell : OnceCellDmaChannel) (log : List Call)
        → (ch : DmaChannel) × ((dma_get_or_init os cell log).0 ≡ ok ch)
    unfolding dma_get_or_init
    dma_opened cell log =
        let (f, e) = working.opens log (create cell.h2c_cdev_path) in
        let (g, k) =
          working.opens (create cell.h2c_cdev_path ∷ log) (open_read cell.c2h_cdev_path) in
        (fill_once cell.channel (record { h2c_cdev = f; c2h_cdev = g }), rw (e, k) refl)

    connected : (sh : XilinxU55nXdmaStd) × ((new os statics before).0 ≡ ok sh)
    unfolding new with_channels
    connected =
        let (ch, e) = ctrl_opened statics.ctrl_cell before in
        let r = ctrl_get_or_init os statics.ctrl_cell before in
        let (dma, k) = dma_opened statics.dma_cell r.2 in
        (
          record { ctrl_channel = ch; dma_channel = dma },
          ap (λ o. (open_dma os statics (o, r.1, r.2)).0) e ∙ ap (with_channels ch) k,
        )

    module _ (sh : XilinxU55nXdmaStd) (got : (new os statics before).0 ≡ ok sh) where
      initialised : (log : List Call) → (init os sh log).0 ≡ ok tt
      unfolding init base_addr
      initialised log =
          elim (init-Ready os sh.ctrl_channel 0x0400_0000 0x7473_6574 (working.ready sh got) log) [
            | inl (e, run) ↦ ap (map_error cms) run
            | inr (e, run) ↦ absurd (e refl)
          ]

      runs :
          (build : Build) (path : String) (log : List Call)
          → (run_command os build sh debug (some (program path)) log).0 ≡ ok tt
      unfolding run_command open_bitstream read_bitstream_file programming_line program_and_time
          print_elapsed
      runs build path log =
          let (file, e) = working.opens log (open_read path) in
          let (bytes, k) = working.contents (open_read path ∷ log) file in
          let programmed =
            program_user_image-Obliging os sh debug (working.obliging sh got) bytes
              (print_line (programming_line path) ∷ read_to_end file ∷ open_read path ∷ log) in
          rw (e, k, programmed) refl

    -- If files can be opened and read, and the card behind the channels that the shell gets accepts
    -- every write, has a CMS core with the supported register map that is ready in time, and is seen
    -- idle once in any 1000 looks, then the tool's `program` command succeeds: for every file,
    -- whatever was called before, whether or not a config file is named, and whether or not other shells have filled the cells.
    pub main-Working :
        (build : Build) (path : String)
        → (main os build statics debug
            (record { config = config; command = some (program path) })
            calls).0
          ≡ ok tt
    unfolding main with_shell
    main-Working build path =
        let (sh, got) = connected in
        let log : List Call = (new os statics before).2 in
        rw (got, initialised sh got log) (runs sh got build path (init os sh log).1)
