-- ===== src/Hbicap/Bursts.antt =====
-- The bursts of `write_programming` in sw/rust/warpshell/src/cores/hbicap.rs.
use warpshell.Base.{
  ℕ, zero, suc, ◌+◌, ◌-◌, ◌≤◌, ◌<◌, min, List, [], ◌∷◌, false, ◌==◌, ◌≡◌, refl, sym, ap, subst, ◌∙◌,
  arith, ◌⊎◌, inl, inr, length, All, Bool-cases,
}
use warpshell.Base.Bytes.{u32, u64, to_le_bytes}
use warpshell.System.{Call, write_all_at, IoResult, done, failed, Os}
use warpshell.Outcome.{Outcome, ok, err, panic, ◌>>◌, continue, Exec, map_error}
use warpshell.Xdma.Error.{ctrl_write_failed}
use warpshell.Based.{xdma_error, BasedCtrlOps, BasedDmaOps}
use warpshell.Xdma.{CtrlChannel, ctrl_ops}
use warpshell.Xdma.Transport.{write_u32-cases}
use warpshell.Hbicap.{HbicapError, based_error, set_hbicap_reg, write_bursts, write_programming}
use warpshell.Hbicap.Packet.{size}

pub sum : List ℕ → ℕ
sum [] = 0
sum (n ∷ ns) = n + sum ns

-- A burst is not empty and fits into the write FIFO.
abbrev pub IsBurst : ℕ → Type 0
IsBurst n = (0 < n) × (n ≤ 256)

module _ {E : Type 0} (os : Os E) (ch : CtrlChannel) (base : ℕ) (d : BasedDmaOps E) where
  abbrev c : BasedCtrlOps E
  c = ctrl_ops os ch base

  -- The size register set to each of `ns` in turn
  abbrev pub sizes : List ℕ → List Call → List Call
  sizes [] calls = calls
  sizes (n ∷ ns) calls =
      sizes ns (write_all_at ch.cdev (to_le_bytes n) (u64 (base + 0x108)) ∷ calls)

  step :
      (fuel len : ℕ) (calls : List Call)
      → (len == 0) ≡ false
      → write_bursts c d (suc fuel) len calls
        ≡ (set_hbicap_reg c d size (min 256 len) >> write_bursts c d fuel (len - min 256 len)) calls
  unfolding write_bursts
  step fuel len calls e = rw (e, write_bursts) refl

  -- A write of `n` to the size register
  abbrev size_write : ℕ → Call
  size_write n = write_all_at ch.cdev (to_le_bytes n) (u64 (base + 0x108))

  abbrev write_answer : ℕ → List Call → IoResult E Unit
  write_answer n calls = os.written calls ch.cdev (to_le_bytes n) (u64 (base + 0x108))

  set_size-cases :
      (n : ℕ) (calls : List Call)
      → ((write_answer n calls ≡ done tt)
          × (set_hbicap_reg c d size n calls ≡ (ok tt, size_write n ∷ calls)))
        ⊎ ((e : E) × (write_answer n calls ≡ failed e)
            × (set_hbicap_reg c d size n calls
                ≡ (err (based_error (xdma_error (ctrl_write_failed e))), size_write n ∷ calls)))
  unfolding set_hbicap_reg
  set_size-cases n calls = elim (write_u32-cases os ch base 0x108 n calls) [
    | inl (a, e) ↦ inl (a, ap (λ r. (map_error based_error r.0, r.1)) e)
    | inr (x, a, e) ↦ inr (x, a, ap (λ r. (map_error based_error r.0, r.1)) e)
  ]

  -- The device has taken all of `ns` as sizes.
  abbrev pub Taken : List ℕ → List Call → Type 0
  Taken [] calls = Unit
  Taken (n ∷ ns) calls = (write_answer n calls ≡ done tt) × Taken ns (size_write n ∷ calls)

  -- A run that the device ends: it has taken the bursts `ns` and refuses `n`, the next one, with `e`.
  pub record Refused (len : ℕ) (calls : List Call) (run : Outcome (HbicapError E) Unit × List Call)
      : Type 0 where
    pub ns : List ℕ
    pub n : ℕ
    pub e : E
    pub within : sum ns + n ≤ len
    pub bursts : All IsBurst ns × IsBurst n
    pub taken : Taken ns calls
    pub refused : write_answer n (sizes ns calls) ≡ failed e
    pub ended :
        run ≡ (err (based_error (xdma_error (ctrl_write_failed e))), size_write n ∷ sizes ns calls)

  -- A run that panics at the end: the device has taken bursts that add up to `len`.
  pub record Panicked (len : ℕ) (calls : List Call) (run : Outcome (HbicapError E) Unit × List Call)
      : Type 0 where
    pub ns : List ℕ
    pub total : sum ns ≡ len
    pub bursts : All IsBurst ns
    pub taken : Taken ns calls
    pub ended : run ≡ (panic, sizes ns calls)

  abbrev pub Ends : ℕ → List Call → Outcome (HbicapError E) Unit × List Call → Type 0
  Ends len calls run = Refused len calls run ⊎ Panicked len calls run

  -- The bursts behind the first, which the device has taken
  Ends-cons :
      (b len : ℕ) (calls : List Call) (run : Outcome (HbicapError E) Unit × List Call)
      → IsBurst b
      → write_answer b calls ≡ done tt
      → Ends len (size_write b ∷ calls) run
      → Ends (b + len) calls run
  unfolding sum
  Ends-cons b len calls run burst took (inl r) = inl (record {
    ns = b ∷ r.ns;
    n = r.n;
    e = r.e;
    within = omega (arith, r.within);
    bursts = ((burst, r.bursts.0), r.bursts.1);
    taken = (took, r.taken);
    refused = r.refused;
    ended = r.ended;
  })
  Ends-cons b len calls run burst took (inr p) = inr (record {
    ns = b ∷ p.ns;
    total = omega (arith, p.total);
    bursts = (burst, p.bursts);
    taken = (took, p.taken);
    ended = p.ended;
  })

  none_left : (len : ℕ) (calls : List Call) → len ≡ 0 → Panicked len calls (panic, calls)
  unfolding sum
  none_left len calls h = record {
    ns = [];
    total = omega arith;
    bursts = tt;
    taken = tt;
    ended = refl;
  }

  write_bursts-Ends :
      (fuel len : ℕ) (calls : List Call)
      → len ≤ fuel
      → Ends len calls (write_bursts c d fuel len calls)
  unfolding write_bursts sum
  write_bursts-Ends zero len calls h = inr (none_left len calls (omega arith))
  write_bursts-Ends (suc fuel) len calls h = elim (Bool-cases (len == 0)) [
    | inl e ↦ rw (e, write_bursts) (inr (none_left len calls (ground arith)))
    | inr e ↦
        let b : ℕ = min 256 len in
        let pos : 0 < len = ground arith in
        let rest_of : Unit {0} → Exec (HbicapError E) Unit = λ _. write_bursts c d fuel (len - b) in
        let burst : IsBurst b = (omega arith, omega arith) in
        elim (set_size-cases b calls) [
          | inl (took, o) ↦
              let rest = write_bursts-Ends fuel (len - b) (size_write b ∷ calls) (omega arith) in
              let all : b + (len - b) ≡ len = omega arith in
              subst (λ n. Ends n calls (write_bursts c d (suc fuel) len calls)) all
                (subst (Ends (b + (len - b)) calls)
                  (sym (step fuel len calls e ∙ ap (λ r. continue r.0 rest_of r.1) o))
                  (Ends-cons b (len - b) calls _ burst took rest))
          | inr (x, refused, o) ↦ inl (record {
            ns = [];
            n = b;
            e = x;
            within = omega arith;
            bursts = (tt, burst);
            taken = tt;
            refused = refused;
            ended = step fuel len calls e ∙ ap (λ r. continue r.0 rest_of r.1) o;
          })
        ]
  ]

  -- `write_programming` never returns. Either the device refuses a write to the size register: the run
  -- then returns the error that the device answered with, right after that write, and the device has
  -- taken all writes before it. Or the device takes them all: then the run panics, having set the size
  -- register to the sizes of bursts that add up to the number of words (modulo 2 ^ 32), and nothing
  -- else. In both cases no burst is empty or of more than 256 words.
  pub write_programming-Ends :
      (words : List ℕ) (calls : List Call)
      → Ends (u32 (length words)) calls (write_programming c d words calls)
  unfolding write_programming
  write_programming-Ends words calls =
      write_bursts-Ends (u32 (length words)) (u32 (length words)) calls (omega arith)
