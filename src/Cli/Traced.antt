-- ===== src/Cli/Traced.antt =====
-- All calls of the tool, sw/rust/warpshell-cli/src/main.rs, with the command `program`.
use Prim.Native.String.{String}
use warpshell.Base.{
  ℕ, ◌≤◌, List, ◌∷◌, ◌++◌, Bool, Option, some, ◌≡◌, refl, ap, subst, ◌∙◌, inl, inr,
}
use warpshell.System.{
  File, Call, open_read, open_read_write, create, read_to_end, print_line, done, IoResult-cases, Os,
}
use warpshell.Outcome.{ok, Outcome-cases, bind-ok_next, map_err, map_err-ok}
use warpshell.Xdma.{DmaChannel, OnceCellDmaChannel, ctrl_get_or_init, dma_get_or_init}
use warpshell.Cms
use warpshell.Cms.CardInfo.Text.{codes}
use warpshell.Cms.Startup.{Started, init-Started}
use warpshell.Shell
use warpshell.Shell.{
  XilinxU55nXdmaStd, Statics, base_addr, cms, cms_core, on_ctrl, open_dma, make_idle,
  program_user_image,
}
use warpshell.Shell.Channels.{open_dma-ok}
use warpshell.Shell.Sequence.{Sequence, program_user_image-Sequence}
use warpshell.Cli.{Build, cannot_initialise, print_config, program, main, with_shell}
use warpshell.Cli.Program.{run_command-program}

module _ {E : Type 0} (os : Os E) where
  dma_get_or_init-calls :
      (cell : OnceCellDmaChannel) (calls : List Call) (ch : DmaChannel)
      → (dma_get_or_init os cell calls).0 ≡ ok ch
      → (dma_get_or_init os cell calls).2
        ≡ open_read cell.c2h_cdev_path ∷ create cell.h2c_cdev_path ∷ calls
  unfolding dma_get_or_init
  dma_get_or_init-calls cell calls ch h =
      elim (IoResult-cases (os.opened calls (create cell.h2c_cdev_path))) [
        | inl (f, e) ↦
            elim (IoResult-cases
              (os.opened (create cell.h2c_cdev_path ∷ calls) (open_read cell.c2h_cdev_path))) [
                | inl (g, k) ↦ rw (e, k) refl
                | inr (x, k) ↦ rw (e, k) refl
              ]
        | inr (x, e) ↦ absurd (cc (rw e at h))
      ]

  new-calls :
      (s : Statics) (calls : List Call) (sh : XilinxU55nXdmaStd)
      → (Shell.new os s calls).0 ≡ ok sh
      → (Shell.new os s calls).2
        ≡ open_read s.dma_cell.c2h_cdev_path
          ∷ create s.dma_cell.h2c_cdev_path
          ∷ open_read_write s.ctrl_cell.cdev_path
          ∷ calls
  unfolding Shell.new ctrl_get_or_init
  new-calls s calls sh h =
      let r = ctrl_get_or_init os s.ctrl_cell calls in
      let (e, k, after) = open_dma-ok os s r.0 r.1 r.2 sh h in
      ap (λ o. (open_dma os s (o, r.1, r.2)).2) e
      ∙ dma_get_or_init-calls s.dma_cell r.2 sh.dma_channel k

  module _ (build : Build) (statics : Statics) (debug : Bool) (config : Option String)
      (path : String) (calls : List Call) where
    -- A run that succeeds, from the opening of the devices to the last line
    pub record Traced (log : List Call) : Type 0 where
      pub sh : XilinxU55nXdmaStd
      pub connected : (Shell.new os statics (print_config config calls)).0 ≡ ok sh
      pub ready : List Call
      pub started :
          Started os sh.ctrl_channel 0x0400_0000
            (open_read statics.dma_cell.c2h_cdev_path
              ∷ create statics.dma_cell.h2c_cdev_path
              ∷ open_read_write statics.ctrl_cell.cdev_path
              ∷ print_config config calls)
            ready
      pub file : File
      pub found : os.opened ready (open_read path) ≡ done file
      pub image : List ℕ
      pub contents : os.read_all (open_read path ∷ ready) file ≡ done image
      pub start : List Call
      pub announced :
          start
          ≡ print_line (codes "Programming bitstream file " ++ codes path)
            ∷ read_to_end file
            ∷ open_read path
            ∷ ready
      pub tries : ℕ
      pub in_time : tries ≤ 1000
      pub programmed : List Call
      pub sequence : Sequence os sh image (make_idle os sh debug start).1 tries programmed
      pub logged :
          log
          ≡ print_line (codes "Programming finished in " ++ build.elapsed start programmed)
            ∷ programmed

    -- What follows on a shell that is connected
    run_command-Traced :
        (sh : XilinxU55nXdmaStd)
        → (Shell.new os statics (print_config config calls)).0 ≡ ok sh
        → let log : List Call = (Shell.new os statics (print_config config calls)).2 in
          let run = with_shell os build debug (some (program path)) (ok sh) log in
          run.0 ≡ ok tt → Traced run.1
    unfolding with_shell Shell.init base_addr
    run_command-Traced sh connected h =
        let log : List Call = (Shell.new os statics (print_config config calls)).2 in
        let opened = new-calls statics (print_config config calls) sh connected in
        let (u, i, l, k) = bind-ok_next (map_err cannot_initialise (Shell.init os sh)) _ log h in
        let begun : (Shell.init os sh log).0 ≡ ok tt =
          map_err-ok cannot_initialise (Shell.init os sh) log i in
        let ready : List Call = (Shell.init os sh log).1 in
        let (file, image, found, contents, (succeeded, logged)) =
          run_command-program os build sh debug path ready k in
        let start : List Call =
          print_line (codes "Programming bitstream file " ++ codes path)
          ∷ read_to_end file
          ∷ open_read path
          ∷ ready in
        let (tries, in_time, sequence) =
          program_user_image-Sequence os sh debug image start succeeded in
        record {
          sh = sh;
          connected = connected;
          ready = ready;
          started =
              subst (λ before. Started os sh.ctrl_channel 0x0400_0000 before ready) opened
                (init-Started os sh.ctrl_channel 0x0400_0000 log
                  (map_err-ok cms (Cms.init (on_ctrl os sh cms_core)) log begun));
          file = file;
          found = found;
          image = image;
          contents = contents;
          start = start;
          announced = refl;
          tries = tries;
          in_time = in_time;
          programmed = (program_user_image os sh debug image start).1;
          sequence = sequence;
          logged = l ∙ logged;
        }

    -- If the tool's `program` command succeeds, with or without a config file, it has made exactly
    -- these calls, in this order: the line on the config file, where there is one; the opening of the
    -- control device and of both DMA devices; the start-up of the CMS core; opening and reading of the
    -- file, and the line that names it; what makes the HBICAP core idle; the programming sequence
    -- for the bytes of the file; and the line with the time. All of it uses the channels of the
    -- shell that it connected to.
    pub main-Traced :
        let run =
          main os build statics debug
            (record { config = config; command = some (program path) })
            calls in
        run.0 ≡ ok tt → Traced run.1
    unfolding main with_shell print_config
    main-Traced h = elim (Outcome-cases (Shell.new os statics (print_config config calls)).0) [
      | inl (sh, e) ↦ rw e (run_command-Traced sh e (rw e at h))
      | inr (inl (x, e)) ↦ absurd (cc (rw e at h))
      | inr (inr e) ↦ absurd (cc (rw e at h))
    ]
