-- ===== src/Cli/Power.antt =====
-- The formula by which sw/rust/warpshell-cli/src/main.rs reports the board power.
use warpshell.Base.{
  ℕ, ◌+◌, ◌*◌, ◌/◌, ◌%◌, ◌^◌, ◌≤◌, ◌<◌, List, Bool, true, false, ◌≡◌, refl, sym, ap, ◌∙◌, ◌⊎◌, inl,
  inr, arith, ltb, Bool-cases,
}
use warpshell.System.{Call}
use warpshell.Outcome.{Outcome, ok, ok-injective, panic}
use warpshell.Cli.{on_u32, power}

-- One of the two products does not fit into 32 bits.
abbrev pub TooLarge : ℕ → ℕ → ℕ → ℕ → Type 0
TooLarge v i w j = (2 ^ 32 ≤ v * i) ⊎ (2 ^ 32 ≤ w * j)

module _ {X : Type 0} (checks : Bool) where
  -- What the formula comes to
  pub data Reported (v i w j : ℕ) (s : List Call) (run : Outcome X ℕ × List Call) : Type 0 where
    rounded :
        (p : ℕ)
        → (v * i < 2 ^ 32) × (w * j < 2 ^ 32)
        → run ≡ (ok p, s)
        → (p * 1000 ≤ v * i + w * j) × (v * i + w * j < p * 1000 + 2000)
        → Reported v i w j s run
    overflowed : TooLarge v i w j → checks ≡ true → run ≡ (panic, s) → Reported v i w j s run
    wrapped :
        (p : ℕ)
        → TooLarge v i w j
        → checks ≡ false
        → run ≡ (ok p, s)
        → p ≡ v * i % 2 ^ 32 / 1000 + w * j % 2 ^ 32 / 1000
        → Reported v i w j s run

  on_u32-fits : (n : ℕ) (s : List Call) → n < 2 ^ 32 → on_u32 {X = X} checks n s ≡ (ok n, s)
  unfolding on_u32
  on_u32-fits n s h = ground arith

  on_u32-checked :
      (n : ℕ) (s : List Call) → 2 ^ 32 ≤ n → checks ≡ true → on_u32 {X = X} checks n s ≡ (panic, s)
  unfolding on_u32
  on_u32-checked n s h e = ground arith

  on_u32-unchecked :
      (n : ℕ) (s : List Call) → checks ≡ false → on_u32 {X = X} checks n s ≡ (ok (n % 2 ^ 32), s)
  unfolding on_u32
  on_u32-unchecked n s e = ground arith

  power-unchecked :
      (v i w j : ℕ) (s : List Call)
      → checks ≡ false
      → power {X = X} checks v i w j s ≡ (ok (v * i % 2 ^ 32 / 1000 + w * j % 2 ^ 32 / 1000), s)
  unfolding power
  power-unchecked v i w j s e =
      let sum : ℕ = v * i % 2 ^ 32 / 1000 + w * j % 2 ^ 32 / 1000 in
      rw (on_u32-unchecked (v * i) s e, on_u32-unchecked (w * j) s e)
        (on_u32-fits sum s (omega arith))

  pub power-large :
      (v i w j : ℕ) (s : List Call)
      → TooLarge v i w j
      → checks ≡ true
      → power {X = X} checks v i w j s ≡ (panic, s)
  unfolding power
  power-large v i w j s (inl h) e = rw (on_u32-checked (v * i) s h e) refl
  power-large v i w j s (inr h) e = elim (Bool-cases (ltb (v * i) (2 ^ 32))) [
    | inl k ↦ rw (on_u32-fits (v * i) s (ground arith), on_u32-checked (w * j) s h e) refl
    | inr k ↦ rw (on_u32-checked (v * i) s (ground arith) e) refl
  ]

  large :
      (v i w j : ℕ) (s : List Call) → TooLarge v i w j → Reported v i w j s (power checks v i w j s)
  large v i w j s h = elim (Bool-cases checks) [
    | inl e ↦ overflowed h e (power-large v i w j s h e)
    | inr e ↦ wrapped _ h e (power-unchecked v i w j s e) refl
  ]

  -- If both products, of a voltage in mV and a current in mA, fit into 32 bits, then the power in mW
  -- that the formula comes to is their sum, in µW, rounded down by less than 2 mW. If one does not fit,
  -- the formula panics in a build with overflow checks; in another it comes to the value for the
  -- remainders of the products modulo 2 ^ 32.
  pub power_lem : (v i w j : ℕ) (s : List Call) → Reported v i w j s (power checks v i w j s)
  unfolding power
  power_lem v i w j s = elim (Bool-cases (ltb (v * i) (2 ^ 32))) [
    | inr e ↦ large v i w j s (inl (ground arith))
    | inl e ↦ elim (Bool-cases (ltb (w * j) (2 ^ 32))) [
      | inr k ↦ large v i w j s (inr (ground arith))
      | inl k ↦
          let a : v * i < 2 ^ 32 = ground arith in
          let b : w * j < 2 ^ 32 = ground arith in
          let p : ℕ = v * i / 1000 + w * j / 1000 in
          rounded p (a, b)
            (rw (on_u32-fits (v * i) s a, on_u32-fits (w * j) s b) (on_u32-fits p s (omega arith)))
            (omega arith, omega arith)
    ]
  ]

  -- The value is a `u32`.
  pub power-lt :
      (v i w j : ℕ) (s : List Call) {p : ℕ} → (power {X = X} checks v i w j s).0 ≡ ok p → p < 2 ^ 32
  power-lt v i w j s h = elim (power_lem v i w j s) [
    | rounded q a e b ↦
        let same = ok-injective (sym (ap (λ r. r.0) e) ∙ h) in omega (arith, same, a, b)
    | overflowed l k e ↦ absurd (cc (ap (λ r. r.0) e, h))
    | wrapped q l k e f ↦
        let same = ok-injective (sym (ap (λ r. r.0) e) ∙ h) in omega (arith, same, f)
  ]

-- The formula makes no calls.
pub power_log :
    (X : Type 0) (checks : Bool) (v i w j : ℕ) (s : List Call)
    → (power {X = X} checks v i w j s).1 ≡ s
power_log X checks v i w j s = elim (power_lem {X = X} checks v i w j s) [
  | rounded p a e b ↦ ap (λ r. r.1) e
  | overflowed h k e ↦ ap (λ r. r.1) e
  | wrapped p h k e q ↦ ap (λ r. r.1) e
]
