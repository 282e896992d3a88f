-- ===== src/DmaBuffer.antt =====
-- sw/rust/warpshell/src/lib.rs: `DmaBuffer` and `aligned_vec`, the page-aligned buffers for DMA.
-- `Vec` is not part of the program: its capacities are a parameter.
pub mod Filled
use warpshell.Base.{
  ℕ, ◌+◌, ◌*◌, ◌/◌, ◌%◌, ◌≤◌, ◌<◌, List, [], ◌∷◌, ◌++◌, Bool, true, false, ◌≡◌, leb, if◌then◌else◌,
  length, arith,
}
use warpshell.Base.Bytes.{to_le_bytes}

-- `mem::size_of::<Align4K>()`
abbrev pub align_4k : ℕ
align_4k = 4096

-- The capacity of `Vec::with_capacity(n)`, and the capacity to which a `Vec` of a given capacity
-- grows to hold a given number of elements.
pub record Allocator : Type 0 where
  pub with_capacity : ℕ → ℕ
  pub grown : ℕ → ℕ → ℕ

-- The documented promise of `with_capacity`
abbrev pub Provides : Allocator → Type 0
Provides a = (n : ℕ) → n ≤ a.with_capacity n

-- `aligned` holds until the bytes move to an allocation of their own.
pub record DmaBuffer : Type 0 where
  pub bytes : List ℕ
  pub capacity : ℕ
  pub aligned : Bool

module _ (a : Allocator) where
  -- `aligned_vec`: the vector of pages, turned into one of bytes
  unfoldable pub aligned_vec : ℕ → DmaBuffer
  aligned_vec n_bytes = record {
    bytes = [];
    capacity = a.with_capacity (n_bytes / align_4k + 1) * align_4k;
    aligned = true;
  }

  -- `DmaBuffer::new`
  unfoldable pub new : ℕ → DmaBuffer
  unfolding aligned_vec
  new n_bytes = aligned_vec n_bytes

  -- `buf.0.extend_from_slice(bytes)`
  unfoldable pub extend_from_slice : DmaBuffer → List ℕ → DmaBuffer
  extend_from_slice buf more =
      let len = length buf.bytes + length more in
      if leb len buf.capacity then record buf { bytes = buf.bytes ++ more } else record {
        bytes = buf.bytes ++ more;
        capacity = a.grown buf.capacity len;
        aligned = false;
      }

  -- `for w in words { buf.0.extend_from_slice(&w.to_le_bytes()) }`
  unfoldable pub extend_words : DmaBuffer → List ℕ → DmaBuffer
  unfolding extend_from_slice
  extend_words buf [] = buf
  extend_words buf (w ∷ ws) = extend_words (extend_from_slice buf (to_le_bytes w)) ws

-- `as_slice` and `get`: what a DMA write sends
unfoldable pub as_slice : DmaBuffer → List ℕ
as_slice buf = buf.bytes

-- What a read leaves that has filled `as_mut_slice`
unfoldable pub read_into : DmaBuffer → List ℕ → DmaBuffer
read_into buf answer = record buf { bytes = answer }
