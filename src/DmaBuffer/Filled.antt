-- ===== src/DmaBuffer/Filled.antt =====
-- The buffers that sw/rust/warpshell fills for DMA: with an image, as
-- sw/rust/warpshell/src/shells/xilinx_u55n_xdma_std.rs does, and with words, as
-- sw/rust/warpshell/src/cores/hbicap.rs does.
use mathlib.Core.List.{append-nil, append_assoc}
use warpshell.Base.{
  ℕ, ◌+◌, ◌*◌, ◌/◌, ◌%◌, ◌≤◌, ◌<◌, List, [], ◌∷◌, ◌++◌, true, ◌≡◌, refl, sym, ap, subst, ◌∙◌,
  length, length-append, arith,
}
use warpshell.Base.Bytes.{to_le_bytes, words_to_bytes}
use warpshell.DmaBuffer.{
  align_4k, Allocator, Provides, DmaBuffer, new, extend_from_slice, extend_words, as_slice,
  read_into,
}

-- `filled` is `buf` with the contents `bytes`, in the same aligned allocation of whole pages.
pub record Filled (buf filled : DmaBuffer) (bytes : List ℕ) : Type 0 where
  pub contents : as_slice filled ≡ bytes
  pub still_aligned : filled.aligned ≡ true
  pub in_place : filled.capacity ≡ buf.capacity
  pub fits : length bytes < filled.capacity
  pub whole_pages : filled.capacity % align_4k ≡ 0

module _ (a : Allocator) where
  room : (n : ℕ) → Provides a → (n < (new a n).capacity) × ((new a n).capacity % align_4k ≡ 0)
  unfolding new
  room n h = ground (arith, h (n / align_4k + 1))

  extend_from_slice_fits :
      (buf : DmaBuffer) (more : List ℕ)
      → length buf.bytes + length more ≤ buf.capacity
      → extend_from_slice a buf more ≡ record buf { bytes = buf.bytes ++ more }
  unfolding extend_from_slice
  extend_from_slice_fits buf more h = ground arith

  extend_words_fits :
      (buf : DmaBuffer) (ws : List ℕ)
      → length buf.bytes + 4 * length ws ≤ buf.capacity
      → extend_words a buf ws ≡ record buf { bytes = buf.bytes ++ words_to_bytes ws }
  unfolding extend_words words_to_bytes
  extend_words_fits buf [] h = ap (λ l. record buf { bytes = l }) (sym (append-nil buf.bytes))
  extend_words_fits buf (w ∷ ws) h =
      let grown : List ℕ = buf.bytes ++ to_le_bytes w in
      ap (λ b. extend_words a b ws) (extend_from_slice_fits buf (to_le_bytes w) (omega arith))
      ∙ extend_words_fits (record buf { bytes = grown }) ws
          (omega (arith, length-append buf.bytes (to_le_bytes w)))
      ∙ ap (λ l. record buf { bytes = l })
          (append_assoc buf.bytes (to_le_bytes w) (words_to_bytes ws))

  -- A new buffer with contents that it was made for
  made :
      (n : ℕ) (bytes : List ℕ)
      → Provides a
      → length bytes ≤ n
      → Filled (new a n) (record (new a n) { bytes = bytes }) bytes
  unfolding new as_slice
  made n bytes h le =
      let (more, pages) = room n h in
      record {
        contents = refl;
        still_aligned = refl;
        in_place = refl;
        fits = omega (arith, more);
        whole_pages = pages;
      }

  length-words_to_bytes : (ws : List ℕ) → length (words_to_bytes ws) ≡ 4 * length ws
  unfolding words_to_bytes
  length-words_to_bytes [] = omega arith
  length-words_to_bytes (w ∷ ws) = omega (arith, length-words_to_bytes ws)

  -- If `with_capacity` provides what it promises, then these buffers have the contents given, still
  -- lie in the aligned allocation of whole pages that they were made with, and have room to spare: a
  -- buffer for `n` bytes filled with an image of at most that many; the same buffer after a read of
  -- as many bytes as the image has; and a buffer for four bytes for each of some words, filled with
  -- the words one after the other.
  pub Filled-new :
      (n : ℕ) (image answer ws : List ℕ)
      → Provides a
      → length image ≤ n
      → length answer ≡ length image
      → let with_image = extend_from_slice a (new a n) image in
        Filled (new a n) with_image image
        × Filled (new a n) (read_into with_image answer) answer
        × Filled
            (new a (length ws * 4))
            (extend_words a (new a (length ws * 4)) ws)
            (words_to_bytes ws)
  unfolding new read_into
  Filled-new n image answer ws h le same =
      let (more, pages) = room n h in
      let (words_more, words_pages) = room (length ws * 4) h in
      let image_in = extend_from_slice_fits (new a n) image (omega (arith, more)) in
      let words_in = extend_words_fits (new a (length ws * 4)) ws (omega (arith, words_more)) in
      (
        subst (λ b. Filled (new a n) b image) (sym image_in) (made n image h le),
        subst (λ b. Filled (new a n) (read_into b answer) answer) (sym image_in)
            (made n answer h (omega arith)),
        subst (λ b. Filled (new a (length ws * 4)) b (words_to_bytes ws)) (sym words_in)
            (made (length ws * 4) (words_to_bytes ws) h (omega (arith, length-words_to_bytes ws))),
      )

  -- Filling with an image alone
  extend_from_slice-new :
      (n : ℕ) (image : List ℕ)
      → Provides a
      → length image ≤ n
      → let filled = extend_from_slice a (new a n) image in
        (filled.bytes ≡ image)
        × (filled.aligned ≡ true)
        × (filled.capacity ≡ (new a n).capacity)
        × (n < filled.capacity)
        × (filled.capacity % align_4k ≡ 0)
  unfolding extend_from_slice new
  extend_from_slice-new n image h fits = ground (arith, h (n / align_4k + 1))
