-- ===== src/Outcome/Costs.antt =====
-- How many system calls an effect makes, and how long it sleeps, whatever is answered.
use warpshell.Base.{
  ℕ, ◌+◌, ◌≤◌, List, [], ◌∷◌, Bool, true, false, if◌then◌else◌, arith, length, inl, inr,
}
use warpshell.System.{Call, sleep}
use warpshell.Outcome.{Exec, Outcome, Outcome-cases, ◌>>=◌, map_err}

-- The nanoseconds that were slept through
abbrev pub slept : List Call → ℕ
slept [] = 0
slept (sleep duration ∷ calls) = duration + slept calls
slept (_ ∷ calls) = slept calls

-- At most `n` calls, and at most `t` nanoseconds of sleep
pub record Costs {X A : Type 0} (n t : ℕ) (m : Exec X A) : Type 0 where
  pub calls : (s : List Call) → length (m s).1 ≤ length s + n
  pub time : (s : List Call) → slept (m s).1 ≤ slept s + t

module _ {X A : Type 0} where
  pub Costs-none : (r : Outcome X A) → Costs 0 0 (λ s. (r, s))
  Costs-none r = record { calls = λ s. omega arith; time = λ s. omega arith }

  pub Costs-le : {n t k u : ℕ} (m : Exec X A) → n ≤ k → t ≤ u → Costs n t m → Costs k u m
  Costs-le m p q c = record {
    calls = λ s. omega (arith, c.calls s);
    time = λ s. omega (arith, c.time s);
  }

  pub Costs-map_err :
      {n t : ℕ} {Y : Type 0} (g : X → Y) (m : Exec X A) → Costs n t m → Costs n t (map_err g m)
  Costs-map_err g m c = record { calls = c.calls; time = c.time }

  pub Costs-if :
      {n t : ℕ} (b : Bool) (m k : Exec X A)
      → Costs n t m
      → Costs n t k
      → Costs n t (if b then m else k)
  Costs-if true m k c d = c
  Costs-if false m k c d = d

pub Costs-bind :
    {X A B : Type 0} {n t k u : ℕ} (m : Exec X A) (f : A → Exec X B)
    → Costs n t m
    → ((a : A) → Costs k u (f a))
    → Costs (n + k) (t + u) (m >>= f)
Costs-bind {X} {A} {B} {n} {t} {k} {u} m f c d = record {
  calls = λ s. elim (Outcome-cases (m s).0) [
    | inl (a, e) ↦ rw e (omega (arith, c.calls s, (d a).calls (m s).1))
    | inr (inl (x, e)) ↦ rw e (omega (arith, c.calls s))
    | inr (inr e) ↦ rw e (omega (arith, c.calls s))
  ];
  time = λ s. elim (Outcome-cases (m s).0) [
    | inl (a, e) ↦ rw e (omega (arith, c.time s, (d a).time (m s).1))
    | inr (inl (x, e)) ↦ rw e (omega (arith, c.time s))
    | inr (inr e) ↦ rw e (omega (arith, c.time s))
  ];
}
