-- ===== src/Xdma/Transport.antt =====
-- The control interface of sw/rust/warpshell/src/xdma/mod.rs over the device file, call by call.
use warpshell.Base.{
  ℕ, zero, suc, ◌+◌, ◌≤◌, ◌<◌, ◌^◌, List, ◌∷◌, ◌≡◌, refl, ap, ◌∙◌, ◌⊎◌, inl, inr, arith,
}
use warpshell.Base.Bytes.{
  u64, to_le_bytes, from_le_bytes, from_le_bytes-to_le_bytes, from_le_bytes-lt,
}
use warpshell.System.{
  Call, sleep, read_exact_at, write_all_at, done, failed, IoResult-cases, Os, IsExact,
}
use warpshell.Outcome.{ok, err, ◌>>◌, Calm}
use warpshell.Based.{xdma_error, thread_sleep, probe, poll_reg_mask_sleep}
use warpshell.Based.Poll.{Answers, attempt, poll_reg_mask_sleep_lem}
use warpshell.Based.Poll.Search.{after}
use warpshell.Based.Storage.{ReadsWords, IsStorage}
use warpshell.Xdma.{CtrlChannel, ctrl_ops}
use warpshell.Xdma.Error.{ctrl_read_failed, ctrl_write_failed}

module _ {E : Type 0} (os : Os E) (ch : CtrlChannel) (base : ℕ) where
  -- The log after `k` tries of a sleeping poll
  abbrev pub polls : ℕ → ℕ → ℕ → List Call → List Call
  polls zero offset duration calls = calls
  polls (suc k) offset duration calls =
      polls k offset duration
        (read_exact_at ch.cdev 4 (u64 (base + offset)) ∷ sleep duration ∷ calls)

  pub read_u32_calls :
      (offset : ℕ) (calls : List Call)
      → ((ctrl_ops os ch base).based_ctrl_read_u32 offset calls).1
        ≡ read_exact_at ch.cdev 4 (u64 (base + offset)) ∷ calls
  unfolding ctrl_ops
  read_u32_calls offset calls = ground arith

  pub write_u32_calls :
      (offset value : ℕ) (calls : List Call)
      → ((ctrl_ops os ch base).based_ctrl_write_u32 offset value calls).1
        ≡ write_all_at ch.cdev (to_le_bytes value) (u64 (base + offset)) ∷ calls
  unfolding ctrl_ops
  write_u32_calls offset value calls = refl

  -- A register write succeeds or fails with the device's error, and is one call either way.
  pub write_u32-cases :
      (offset value : ℕ) (calls : List Call)
      → let call : Call = write_all_at ch.cdev (to_le_bytes value) (u64 (base + offset)) in
        let wrote = (ctrl_ops os ch base).based_ctrl_write_u32 offset value calls in
        let answer = os.written calls ch.cdev (to_le_bytes value) (u64 (base + offset)) in
        ((answer ≡ done tt) × (wrote ≡ (ok tt, call ∷ calls)))
        ⊎ ((x : E) × (answer ≡ failed x)
            × (wrote ≡ (err (xdma_error (ctrl_write_failed x)), call ∷ calls)))
  unfolding ctrl_ops
  write_u32-cases offset value calls =
      elim (IoResult-cases (os.written calls ch.cdev (to_le_bytes value) (u64 (base + offset)))) [
        | inl (u, e) ↦ inl (e, rw e refl)
        | inr (x, e) ↦ inr (x, e, rw e refl)
      ]

  pub ctrl_ops-Answers : Answers (ctrl_ops os ch base)
  unfolding ctrl_ops
  ctrl_ops-Answers = record {
    answers = λ offset calls.
        elim (IoResult-cases (os.read calls ch.cdev 4 (u64 (base + offset)))) [
          | inl (bytes, e) ↦ inl (from_le_bytes bytes, rw e refl)
          | inr (x, e) ↦ inr (xdma_error (ctrl_read_failed x), rw e refl)
        ];
  }

  pub Calm-read_u32 : (offset : ℕ) → Calm ((ctrl_ops os ch base).based_ctrl_read_u32 offset)
  Calm-read_u32 offset calls h = elim (ctrl_ops-Answers.answers offset calls) [
    | inl (v, e) ↦ absurd (cc (e, h))
    | inr (x, e) ↦ absurd (cc (e, h))
  ]

  pub Calm-write_u32 :
      (offset value : ℕ) → Calm ((ctrl_ops os ch base).based_ctrl_write_u32 offset value)
  Calm-write_u32 offset value calls h = elim (write_u32-cases offset value calls) [
    | inl (a, e) ↦ absurd (cc (ap (λ r. r.0) e, h))
    | inr (x, a, e) ↦ absurd (cc (ap (λ r. r.0) e, h))
  ]

  pub Calm-poll :
      (offset mask expected n duration : ℕ)
      → Calm (poll_reg_mask_sleep (ctrl_ops os ch base) offset mask expected n duration)
  Calm-poll offset mask expected n duration calls h =
      elim (poll_reg_mask_sleep_lem (ctrl_ops os ch base) ctrl_ops-Answers offset mask expected n
        duration calls) [
          | inl (j, lt, before, now, e) ↦ absurd (cc (ap (λ r. r.0) e, h))
          | inr (all, e) ↦ absurd (cc (ap (λ r. r.0) e, h))
        ]

  pub after-attempt :
      (offset mask expected duration k : ℕ) (calls : List Call)
      → after (attempt (ctrl_ops os ch base) offset mask expected duration) k calls
        ≡ polls k offset duration calls
  unfolding thread_sleep probe
  after-attempt offset mask expected duration zero calls = refl
  after-attempt offset mask expected duration (suc k) calls =
      rw (read_u32_calls offset (sleep duration ∷ calls))
        (after-attempt offset mask expected duration k _)

  -- Whatever it comes to, a sleeping poll makes the calls of some tries, at most `n`; if it
  -- succeeds it returns their number.
  pub poll_calls :
      (offset mask expected n duration : ℕ) (calls : List Call)
      → let polled =
          poll_reg_mask_sleep (ctrl_ops os ch base) offset mask expected n duration calls in
        (k : ℕ) × (k ≤ n)
        × (polled.1 ≡ polls k offset duration calls)
        × ((t : ℕ) → polled.0 ≡ ok t → k ≡ t)
  poll_calls offset mask expected n duration calls =
      elim (poll_reg_mask_sleep_lem (ctrl_ops os ch base) ctrl_ops-Answers offset mask expected n
        duration calls) [
          | inl (j, lt, before, now, e) ↦ (
            suc j,
            omega arith,
            ap (λ p. p.1) e ∙ after-attempt offset mask expected duration (suc j) calls,
            λ t h. ground (arith, ap (λ p. p.0) e),
          )
          | inr (all, e) ↦ (
            n,
            omega arith,
            ap (λ p. p.1) e ∙ after-attempt offset mask expected duration n calls,
            λ t h. absurd (cc (ap (λ p. p.0) e, h)),
          )
        ]

  -- If a read never fills a buffer but with as many bytes as it has, a register reads as a word.
  pub ctrl_ops-ReadsWords : IsExact os → ReadsWords (ctrl_ops os ch base)
  unfolding ctrl_ops
  ctrl_ops-ReadsWords exact = record {
    is_word = λ offset v calls h.
        let address : ℕ = u64 (base + offset) in
        elim (IoResult-cases (os.read calls ch.cdev 4 address)) [
          | inl (bytes, e) ↦
              let (four, small) = exact.fills calls ch.cdev 4 address bytes e in
              let value : from_le_bytes bytes ≡ v = ground arith in
              omega (arith, value, from_le_bytes-lt bytes four small)
          | inr (x, e) ↦ absurd (ground arith)
        ];
  }

  -- If the device keeps what was last written at an address, the register there is storage.
  pub ctrl_ops-IsStorage :
      (offset : ℕ)
      → ((calls : List Call) (v : ℕ)
          → os.written calls ch.cdev (to_le_bytes v) (u64 (base + offset)) ≡ done tt
          → os.read
              (write_all_at ch.cdev (to_le_bytes v) (u64 (base + offset)) ∷ calls)
              ch.cdev
              4
              (u64 (base + offset))
            ≡ done (to_le_bytes v))
      → IsStorage (ctrl_ops os ch base) offset
  unfolding ctrl_ops
  ctrl_ops-IsStorage offset keeps = record {
    stored = λ v calls small h.
        let address : ℕ = u64 (base + offset) in
        elim (IoResult-cases (os.written calls ch.cdev (to_le_bytes v) address)) [
          | inl (u, e) ↦ ground (arith, keeps calls v e, from_le_bytes-to_le_bytes v small)
          | inr (x, e) ↦ absurd (ground arith)
        ];
  }

  -- If the write of a 32-bit word succeeds, and the device then answers with the bytes last written,
  -- then reading the register behind it returns the word, and these two calls are all.
  pub read_u32-write_u32 :
      (offset v : ℕ) (calls : List Call)
      → v < 2 ^ 32
      → os.written calls ch.cdev (to_le_bytes v) (u64 (base + offset)) ≡ done tt
      → os.read
          (write_all_at ch.cdev (to_le_bytes v) (u64 (base + offset)) ∷ calls)
          ch.cdev
          4
          (u64 (base + offset))
        ≡ done (to_le_bytes v)
      → ((ctrl_ops os ch base).based_ctrl_write_u32 offset v
            >> (ctrl_ops os ch base).based_ctrl_read_u32 offset)
          calls
        ≡ (
          ok v,
          read_exact_at ch.cdev 4 (u64 (base + offset))
              ∷ write_all_at ch.cdev (to_le_bytes v) (u64 (base + offset))
              ∷ calls,
        )
  unfolding ctrl_ops
  read_u32-write_u32 offset v calls small w r = ground (arith, from_le_bytes-to_le_bytes v small)
