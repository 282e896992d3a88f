-- ===== src/Cli/Program.antt =====
-- The `program` command of sw/rust/warpshell-cli/src/main.rs.
use Prim.Native.String.{String}
use warpshell.Base.{ℕ, List, ◌∷◌, ◌++◌, Bool, some, ◌≡◌, ◌∙◌, arith, inl, inr}
use warpshell.System.{File, Call, open_read, read_to_end, print_line, done, IoResult-cases, Os}
use warpshell.Outcome.{ok, bind-ok_next, map_err, map_err-ok}
use warpshell.Cms.CardInfo.Text.{codes}
use warpshell.Shell.{XilinxU55nXdmaStd, program_user_image}
use warpshell.Cli.{
  Build, programming_line, finished_line, print_elapsed, program_and_time, programming_failed,
  run_command, open_bitstream, read_bitstream_file, program,
}

module _ {E : Type 0} (os : Os E) (build : Build) where
  open_bitstream-ok :
      (path : String) (calls : List Call) {file : File}
      → (open_bitstream os path calls).0 ≡ ok file
      → os.opened calls (open_read path) ≡ done file
  unfolding open_bitstream
  open_bitstream-ok path calls h = elim (IoResult-cases (os.opened calls (open_read path))) [
    | inl (f, e) ↦ ground arith
    | inr (x, e) ↦ absurd (ground arith)
  ]

  read_bitstream_file-ok :
      (file : File) (calls : List Call) {bytes : List ℕ}
      → (read_bitstream_file os file calls).0 ≡ ok bytes
      → os.read_all calls file ≡ done bytes
  unfolding read_bitstream_file
  read_bitstream_file-ok file calls h = elim (IoResult-cases (os.read_all calls file)) [
    | inl (f, e) ↦ ground arith
    | inr (x, e) ↦ absurd (ground arith)
  ]

  -- A `program` command that succeeds has opened the file, read all of it, printed which file it
  -- programs and, right after that, programmed exactly the bytes it read as the user image, with
  -- success. Last it prints the time since the first line; it makes no other calls.
  pub run_command-program :
      (sh : XilinxU55nXdmaStd) (debug : Bool) (path : String) (calls : List Call)
      → (run_command os build sh debug (some (program path)) calls).0 ≡ ok tt
      → (file : File) × (bytes : List ℕ) × (os.opened calls (open_read path) ≡ done file)
        × (os.read_all (open_read path ∷ calls) file ≡ done bytes)
        × (let start : List Call =
              print_line (codes "Programming bitstream file " ++ codes path)
              ∷ read_to_end file
              ∷ open_read path
              ∷ calls in
            let programmed = program_user_image os sh debug bytes start in
            (programmed.0 ≡ ok tt)
            × ((run_command os build sh debug (some (program path)) calls).1
                ≡ print_line (codes "Programming finished in " ++ build.elapsed start programmed.1)
                  ∷ programmed.1))
  unfolding run_command open_bitstream read_bitstream_file programming_line program_and_time
      print_elapsed finished_line
  run_command-program sh debug path calls h =
      let s₁ : List Call = open_read path ∷ calls in
      let (file, a₁, l₁, h₁) = bind-ok_next (open_bitstream os path) _ calls h in
      let (bytes, a₂, l₂, h₂) = bind-ok_next (read_bitstream_file os file) _ s₁ h₁ in
      let s₂ : List Call = print_line (programming_line path) ∷ read_to_end file ∷ s₁ in
      let (u, a₃, l₃, h₃) =
        bind-ok_next (map_err programming_failed (program_user_image os sh debug bytes)) _ s₂ h₂ in
      (
        file,
        bytes,
        open_bitstream-ok path calls a₁,
        read_bitstream_file-ok file s₁ a₂,
        (map_err-ok programming_failed (program_user_image os sh debug bytes) s₂ a₃, l₁ ∙ l₂ ∙ l₃),
      )
