-- ===== src/Based/Poll.antt =====
-- The polling functions of sw/rust/warpshell/src/lib.rs, one try after the other.
pub mod Search
use warpshell.Base.{
  ℕ, zero, suc, ◌+◌, ◌≤◌, ◌<◌, List, ◌∷◌, Bool, true, false, Option, none, some, ◌≡◌, refl, ap, ◌∙◌,
  ◌⊎◌, inl, inr, arith, bit_and, ◌==◌,
}
use warpshell.System.{Call, sleep}
use warpshell.Outcome.{Outcome, ok, err, panic, Exec, ◌>>=◌, ◌>>◌}
use warpshell.Based.{
  BasedError, reg_mask_not_as_expected, BasedCtrlOps, thread_sleep, position, probe, is_expected,
  poll_reg_mask, poll_reg_mask_sleep,
}
use Search.{
  after, answer, Misses, position_found, position_missed, Searched, found, missed, Decides,
  search_tries,
}

ok_cases : {X : Type 0} (b : Bool) → let r : Outcome X Bool = ok b in (r ≡ ok true) ⊎ (r ≡ ok false)
ok_cases true = inl refl
ok_cases false = inr refl

module _ {E : Type 0} (c : BasedCtrlOps E) (offset mask expected duration : ℕ) where
  -- One try of `poll_reg_mask_sleep`.
  abbrev pub attempt : Exec (BasedError E) Bool
  attempt = thread_sleep duration >> probe c offset mask expected

  -- If the first ready answer is that of try `j`, counted from 0, and `j < n`, then the poll
  -- returns `j + 1` tries and has made the calls of exactly those.
  pub poll_reg_mask_sleep_found :
      (n j : ℕ) (calls : List Call)
      → j < n
      → Misses attempt j calls
      → answer attempt j calls ≡ ok true
      → poll_reg_mask_sleep c offset mask expected n duration calls
        ≡ (ok (j + 1), after attempt (suc j) calls)
  unfolding poll_reg_mask_sleep
  poll_reg_mask_sleep_found n j calls h before now =
      let e : 0 + j + 1 ≡ j + 1 = omega arith in
      rw (position_found attempt n 0 j calls h before now)
        (ap (λ (t : ℕ). (ok t, after attempt (suc j) calls)) e)

  pub poll_reg_mask_sleep_missed :
      (n : ℕ) (calls : List Call)
      → Misses attempt n calls
      → poll_reg_mask_sleep c offset mask expected n duration calls
        ≡ (err (reg_mask_not_as_expected offset mask expected), after attempt n calls)
  unfolding poll_reg_mask_sleep
  poll_reg_mask_sleep_missed n calls h = rw (position_missed attempt n 0 calls h) refl

  pub poll_reg_mask_found :
      (n j : ℕ) (calls : List Call)
      → j < n
      → Misses (probe c offset mask expected) j calls
      → answer (probe c offset mask expected) j calls ≡ ok true
      → poll_reg_mask c offset mask expected n calls
        ≡ (ok tt, after (probe c offset mask expected) (suc j) calls)
  unfolding poll_reg_mask
  poll_reg_mask_found n j calls h before now =
      rw (position_found (probe c offset mask expected) n 0 j calls h before now) refl

  pub poll_reg_mask_missed :
      (n : ℕ) (calls : List Call)
      → Misses (probe c offset mask expected) n calls
      → poll_reg_mask c offset mask expected n calls ≡ (
        err (reg_mask_not_as_expected offset mask expected),
        after (probe c offset mask expected) n calls,
      )
  unfolding poll_reg_mask
  poll_reg_mask_missed n calls h =
      rw (position_missed (probe c offset mask expected) n 0 calls h) refl

-- The control interface's reads return or fail; they do not panic.
pub record Answers {E : Type 0} (c : BasedCtrlOps E) : Type 0 where
  pub answers :
      (offset : ℕ) (calls : List Call)
      → ((v : ℕ) × ((c.based_ctrl_read_u32 offset calls).0 ≡ ok v))
        ⊎ ((e : BasedError E) × ((c.based_ctrl_read_u32 offset calls).0 ≡ err e))

module _ {E : Type 0} (c : BasedCtrlOps E) (total : Answers c) where
  probe-Decides : (offset mask expected : ℕ) → Decides (probe c offset mask expected)
  unfolding probe is_expected
  probe-Decides offset mask expected calls = elim (total.answers offset calls) [
    | inl (v, e) ↦ rw e (ok_cases (bit_and v mask == expected))
    | inr (x, e) ↦ rw e (inr refl)
  ]

  attempt-Decides :
      (offset mask expected duration : ℕ) → Decides (attempt c offset mask expected duration)
  unfolding thread_sleep
  attempt-Decides offset mask expected duration calls =
      probe-Decides offset mask expected (sleep duration ∷ calls)

  pub poll_reg_mask_sleep_lem :
      (offset mask expected n duration : ℕ) (calls : List Call)
      → let try = attempt c offset mask expected duration in
        let polled = poll_reg_mask_sleep c offset mask expected n duration calls in
        ((j : ℕ) × (j < n)
          × Misses try j calls
          × (answer try j calls ≡ ok true)
          × (polled ≡ (ok (j + 1), after try (suc j) calls)))
        ⊎ (Misses try n calls
            × (polled ≡ (err (reg_mask_not_as_expected offset mask expected), after try n calls)))
  poll_reg_mask_sleep_lem offset mask expected n duration calls =
      elim (search_tries _ (attempt-Decides offset mask expected duration) n calls) [
        | found j lt before now ↦ inl (
          j,
          lt,
          before,
          now,
          poll_reg_mask_sleep_found c offset mask expected duration n j calls lt before now,
        )
        | missed all ↦
            inr (all, poll_reg_mask_sleep_missed c offset mask expected duration n calls all)
      ]

  -- Over an interface whose reads do not panic, a poll without sleeping succeeds at the first
  -- ready answer among at most `n`, or fails with the mask error after `n` reads that are all not
  -- ready; either way it makes those reads and no others.
  poll_reg_mask_lem :
      (offset mask expected n : ℕ) (calls : List Call)
      → let try = probe c offset mask expected in
        let polled = poll_reg_mask c offset mask expected n calls in
        ((j : ℕ) × (j < n)
          × Misses try j calls
          × (answer try j calls ≡ ok true)
          × (polled ≡ (ok tt, after try (suc j) calls)))
        ⊎ (Misses try n calls
            × (polled ≡ (err (reg_mask_not_as_expected offset mask expected), after try n calls)))
  poll_reg_mask_lem offset mask expected n calls =
      elim (search_tries _ (probe-Decides offset mask expected) n calls) [
        | found j lt before now ↦ inl (
          j,
          lt,
          before,
          now,
          poll_reg_mask_found c offset mask expected 0 n j calls lt before now,
        )
        | missed all ↦ inr (all, poll_reg_mask_missed c offset mask expected 0 n calls all)
      ]
