-- ===== src/Based/Poll/Search.antt =====
-- The search for the first success that both polling functions make.
use warpshell.Base.{
  ℕ, zero, suc, ◌+◌, ◌<◌, List, Bool, true, false, none, some, ◌≡◌, refl, ap, ◌∙◌, ◌⊎◌, inl, inr,
  arith,
}
use warpshell.System.{Call}
use warpshell.Outcome.{Outcome, ok, Exec}
use warpshell.Based.{position}

module _ {X : Type 0} (try : Exec X Bool) where
  -- The calls once `k` tries have been made.
  abbrev pub after : ℕ → List Call → List Call
  after zero calls = calls
  after (suc k) calls = after k (try calls).1

  -- The answer of try `k`, counted from 0.
  abbrev pub answer : ℕ → List Call → Outcome X Bool
  answer k calls = (try (after k calls)).0

  -- None of the first `k` tries succeeds.
  abbrev pub Misses : ℕ → List Call → Type 0
  Misses k calls = (i : ℕ) → i < k → answer i calls ≡ ok false

  pub Misses-suc : (k : ℕ) (calls : List Call) → Misses (suc k) calls → Misses k (try calls).1
  Misses-suc k calls h i lt = h (suc i) (omega arith)

  pub Misses-cons :
      (k : ℕ) (calls : List Call)
      → (try calls).0 ≡ ok false
      → Misses k (try calls).1
      → Misses (suc k) calls
  Misses-cons k calls first rest zero lt = first
  Misses-cons k calls first rest (suc i) lt = rest i (omega arith)

  position_step :
      (n i : ℕ) (calls : List Call)
      → (try calls).0 ≡ ok false
      → position try (suc n) i calls ≡ position try n (i + 1) (try calls).1
  unfolding position
  position_step n i calls e = rw e refl

  pub position_found :
      (n i j : ℕ) (calls : List Call)
      → j < n
      → Misses j calls
      → answer j calls ≡ ok true
      → position try n i calls ≡ (ok (some (i + j)), after (suc j) calls)
  position_found zero i j calls h before now = absurd (omega arith)
  position_found (suc n) i zero calls h before now =
      let e : i ≡ i + 0 = omega arith in
      unfold position in rw now (ap (λ (k : ℕ). (ok (some k), (try calls).1)) e)
  position_found (suc n) i (suc j) calls h before now =
      let e : i + 1 + j ≡ i + suc j = omega arith in
      position_step n i calls (before 0 (omega arith))
      ∙ position_found n (i + 1) j (try calls).1 (omega arith) (Misses-suc j calls before) now
      ∙ ap (λ (k : ℕ). (ok (some k), after (suc (suc j)) calls)) e

  pub position_missed :
      (n i : ℕ) (calls : List Call)
      → Misses n calls
      → position try n i calls ≡ (ok none, after n calls)
  position_missed zero i calls h = unfold position in refl
  position_missed (suc n) i calls h =
      position_step n i calls (h 0 (omega arith))
      ∙ position_missed n (i + 1) (try calls).1 (Misses-suc n calls h)

  -- What a run of `n` tries can come to.
  pub data Searched (n : ℕ) (calls : List Call) : Type 0 where
    found : (j : ℕ) → j < n → Misses j calls → answer j calls ≡ ok true → Searched n calls
    missed : Misses n calls → Searched n calls

  -- No try ends in an error or a panic.
  abbrev pub Decides : Type 0
  Decides = (calls : List Call) → ((try calls).0 ≡ ok true) ⊎ ((try calls).0 ≡ ok false)

  pub search_tries : Decides → (n : ℕ) (calls : List Call) → Searched n calls
  search_tries d zero calls = missed (λ i lt. absurd (omega arith))
  search_tries d (suc n) calls = elim (d calls) [
    | inl now ↦ found 0 (omega arith) (λ i lt. absurd (omega arith)) now
    | inr first ↦ elim (search_tries d n (try calls).1) [
      | found j lt before now ↦ found (suc j) (omega arith) (Misses-cons j calls first before) now
      | missed rest ↦ missed (Misses-cons n calls first rest)
    ]
  ]
