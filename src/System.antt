-- ===== src/System.antt =====
-- What the program asks of the operating system: file operations on the XDMA driver's character
-- devices (`std::fs::File`, `OpenOptions`, `std::os::unix::fs::FileExt`) and `thread::sleep`.
-- The device and the driver are not part of the program: an answer is an arbitrary function of
-- all calls made before and of the call itself, so it covers every deterministic device, with
-- whatever state and delays.
use warpshell.Base.{ℕ, List, ◌≡◌, refl, ◌⊎◌, inl, inr, length, All}
use warpshell.Base.Bytes.{IsByte}
use Prim.Native.String.{String}

-- An open `File` is its descriptor.
abbrev pub File : Type 0
File = ℕ

pub data Call : Type 0 where
  -- thread::sleep, in nanoseconds
  sleep : ℕ → Call
  -- OpenOptions::new().read(true).write(true).open(path)
  open_read_write : String → Call
  -- File::create(path) and File::open(path)
  create open_read : String → Call
  -- file.read_exact_at(buf, offset), with the length of `buf`
  read_exact_at : File → ℕ → ℕ → Call
  -- file.write_all_at(buf, offset)
  write_all_at : File → List ℕ → ℕ → Call
  -- file.read_to_end(vec)
  read_to_end : File → Call
  -- println!, with the code points of the line
  print_line : List ℕ → Call

-- `std::io::Result`
pub data IoResult (E A : Type 0) : Type 0 where
  done : A → IoResult E A
  failed : E → IoResult E A

pub IoResult-cases :
    {E A : Type 0} (r : IoResult E A) → ((a : A) × (r ≡ done a)) ⊎ ((e : E) × (r ≡ failed e))
IoResult-cases (done a) = inl (a, refl)
IoResult-cases (failed e) = inr (e, refl)

-- The answers, `E` being `std::io::Error`. The first argument is the log of earlier calls, the
-- latest first. A read returns the bytes that it has filled the buffer with.
pub record Os (E : Type 0) : Type 0 where
  pub opened : List Call → Call → IoResult E File
  pub read : List Call → File → ℕ → ℕ → IoResult E (List ℕ)
  pub read_all : List Call → File → IoResult E (List ℕ)
  pub written : List Call → File → List ℕ → ℕ → IoResult E (Unit {0})

-- `read_exact_at` either fails or fills the whole buffer, with bytes.
pub record IsExact {E : Type 0} (os : Os E) : Type 0 where
  pub fills :
      (calls : List Call) (file : File) (len offset : ℕ) (bytes : List ℕ)
      → os.read calls file len offset ≡ done bytes
      → (length bytes ≡ len) × All IsByte bytes
