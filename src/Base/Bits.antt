-- ===== src/Base/Bits.antt =====
-- Binary digits of a number, and what the native `&`, `|` and `^` do to each of them.
use Prim.Native.Nat.{
  differ, ℕ, zero, suc, ◌+◌, ◌-◌, ◌*◌, ◌/◌, ◌%◌, ◌^◌, ◌≤◌, ◌<◌, min, max, digits, bit_and, bit_or,
  bit_xor, bit_and-bitwise, bit_or-bitwise, bit_xor-bitwise,
}
use mathlib.Core.Path.{◌≡◌, refl, sym, ap, ap₂, ◌∙◌}
use mathlib.Core.Logic.{◌≢◌}
use native.Mathlib.Nat.{pow-suc, one-le-pow}
use native.Mathlib.Omega.{arith}

-- The number's digit of weight `2 ^ k`.
abbrev pub bit : ℕ → ℕ → ℕ
bit zero a = a % 2
bit (suc k) a = bit k (a / 2)

pub bit-lt : (k a : ℕ) → bit k a < 2
bit-lt zero a = omega arith
bit-lt (suc k) a = bit-lt k (a / 2)

module _ (z : ℕ → ℕ) (f : ℕ → ℕ → ℕ) where
  enough : (p q a b : ℕ) → a ≤ p → a ≤ q → digits z f p a b ≡ digits z f q a b
  enough zero zero a b hp hq = refl
  enough zero (suc q) zero b hp hq = refl
  enough (suc p) zero zero b hp hq = refl
  enough (suc p) (suc q) zero b hp hq = refl
  enough zero q (suc a) b hp hq = absurd (omega arith)
  enough (suc p) zero (suc a) b hp hq = absurd (omega arith)
  enough (suc p) (suc q) (suc a) b hp hq =
      ap (λ t. t * 2 + f (suc a % 2) (b % 2))
        (enough p q (suc a / 2) (b / 2) (omega arith) (omega arith))

pub bit_or_halves : (a b : ℕ) → bit_or a b ≡ bit_or (a / 2) (b / 2) * 2 + max (a % 2) (b % 2)
bit_or_halves zero b = omega (arith, bit_or-bitwise 0 b, bit_or-bitwise 0 (b / 2))
bit_or_halves (suc a) b = omega (
  arith,
  bit_or-bitwise (suc a) b,
  bit_or-bitwise (suc a / 2) (b / 2),
  enough (λ y. y) max a (suc a / 2) (suc a / 2) (b / 2) (omega arith) (omega arith),
)

pub bit_and_halves : (a b : ℕ) → bit_and a b ≡ bit_and (a / 2) (b / 2) * 2 + min (a % 2) (b % 2)
bit_and_halves zero b = omega (arith, bit_and-bitwise 0 b, bit_and-bitwise 0 (b / 2))
bit_and_halves (suc a) b = omega (
  arith,
  bit_and-bitwise (suc a) b,
  bit_and-bitwise (suc a / 2) (b / 2),
  enough (λ y. 0) min a (suc a / 2) (suc a / 2) (b / 2) (omega arith) (omega arith),
)

-- Each binary digit of `a | b` and of `a & b`.
pub bit-bit_or : (k a b : ℕ) → bit k (bit_or a b) ≡ max (bit k a) (bit k b)
bit-bit_or zero a b = omega (arith, bit_or_halves a b)
bit-bit_or (suc k) a b =
    ap (bit k) (omega (arith, bit_or_halves a b)) ∙ bit-bit_or k (a / 2) (b / 2)

pub bit-bit_and : (k a b : ℕ) → bit k (bit_and a b) ≡ min (bit k a) (bit k b)
bit-bit_and zero a b = omega (arith, bit_and_halves a b)
bit-bit_and (suc k) a b =
    ap (bit k) (omega (arith, bit_and_halves a b)) ∙ bit-bit_and k (a / 2) (b / 2)

bit_or_nothing : (n a : ℕ) → a ≤ n → bit_or a 0 ≡ a
bit_or_nothing n zero h = refl
bit_or_nothing zero (suc a) h = absurd (omega arith)
bit_or_nothing (suc n) (suc a) h =
    omega (arith, bit_or_halves (suc a) 0, bit_or_nothing n (suc a / 2) (omega arith))

bit_and_nothing : (n a : ℕ) → a ≤ n → bit_and a 0 ≡ 0
bit_and_nothing n zero h = refl
bit_and_nothing zero (suc a) h = absurd (omega arith)
bit_and_nothing (suc n) (suc a) h =
    omega (arith, bit_and_halves (suc a) 0, bit_and_nothing n (suc a / 2) (omega arith))

pub bit_or-zero : (a : ℕ) → bit_or a 0 ≡ a
bit_or-zero a = bit_or_nothing a a (omega arith)

pub bit_and-zero : (a : ℕ) → bit_and a 0 ≡ 0
bit_and-zero a = bit_and_nothing a a (omega arith)

differ-zero : (x : ℕ) → differ x 0 ≡ x
differ-zero zero = refl
differ-zero (suc x) = refl

-- `differ` is stuck at a variable, so the law is stated for a mask of one.
bit_xor_halves : (a b : ℕ) → bit_xor a b ≡ bit_xor (a / 2) (b / 2) * 2 + differ (a % 2) (b % 2)
bit_xor_halves zero b =
    let small : b ≡ b / 2 * 2 + b % 2 = omega arith in
    bit_xor-bitwise 0 b ∙ small ∙ ap (λ t. t * 2 + b % 2) (sym (bit_xor-bitwise 0 (b / 2)))
bit_xor_halves (suc a) b =
    bit_xor-bitwise (suc a) b
    ∙ ap (λ t. t * 2 + differ (suc a % 2) (b % 2))
        (enough (λ y. y) differ a (suc a / 2) (suc a / 2) (b / 2) (omega arith) (omega arith)
          ∙ sym (bit_xor-bitwise (suc a / 2) (b / 2)))

bit_xor_nothing : (n a : ℕ) → a ≤ n → bit_xor a 0 ≡ a
bit_xor_nothing n zero h = refl
bit_xor_nothing zero (suc a) h = absurd (omega arith)
bit_xor_nothing (suc n) (suc a) h =
    bit_xor_halves (suc a) 0
    ∙ ap₂ (λ s t. s * 2 + t) (bit_xor_nothing n (suc a / 2) (omega arith)) (differ-zero (suc a % 2))
    ∙ omega arith

pub bit_or-one : (a : ℕ) → bit_or a 1 ≡ a / 2 * 2 + 1
bit_or-one a = omega (arith, bit_or_halves a 1, bit_or-zero (a / 2))

pub bit_and-one : (a : ℕ) → bit_and a 1 ≡ a % 2
bit_and-one a = omega (arith, bit_and_halves a 1, bit_and-zero (a / 2))

-- Setting the lowest digit and then flipping it clears it and keeps the others.
pub bit_xor-bit_or_one : (a : ℕ) → bit_xor (bit_or a 1) 1 ≡ a / 2 * 2
bit_xor-bit_or_one a =
    let half : bit_or a 1 / 2 ≡ a / 2 = omega (arith, bit_or-one a) in
    let odd : bit_or a 1 % 2 ≡ 1 = omega (arith, bit_or-one a) in
    bit_xor_halves (bit_or a 1) 1
    ∙ ap₂ (λ s t. bit_xor s 0 * 2 + differ t 1) half odd
    ∙ ap (λ s. s * 2 + 0) (bit_xor_nothing (a / 2) (a / 2) (omega arith))
    ∙ omega arith

double_shift : (q k : ℕ) → q * 2 ^ suc k ≡ q * 2 ^ k * 2
double_shift q k = omega (arith, ap (λ (t : ℕ). q * t) (pow-suc 2 k))

-- `|` of a value shifted by `k` and one of at most `k` digits is their sum.
pub bit_or_disjoint : (k q r : ℕ) → r < 2 ^ k → bit_or (q * 2 ^ k) r ≡ q * 2 ^ k + r
bit_or_disjoint zero q r h =
    let none_left : r ≡ 0 = omega arith in
    let whole : q * 2 ^ 0 ≡ q = omega arith in rw (none_left, whole) (bit_or-zero q ∙ omega arith)
bit_or_disjoint (suc k) q r h =
    let half : q * 2 ^ suc k / 2 ≡ q * 2 ^ k = omega (arith, double_shift q k) in
    let small : r / 2 < 2 ^ k = omega (arith, pow-suc 2 k) in
    omega (
      arith,
      bit_or_halves (q * 2 ^ suc k) r,
      ap (λ t. bit_or t (r / 2)) half,
      double_shift q k,
      bit_or_disjoint k q (r / 2) small,
    )

bit_and_last : (k q r : ℕ) → r < 2 ^ k → bit_and (q * 2 ^ k + r) (2 ^ k - 1) ≡ r
bit_and_last zero q r h = rw bit_and-zero (omega arith)
bit_and_last (suc k) q r h =
    let size : 2 ^ suc k ≡ 2 ^ k * 2 = pow-suc 2 k in
    let top : (q * 2 ^ suc k + r) / 2 ≡ q * 2 ^ k + r / 2 = omega (arith, double_shift q k) in
    let odd : (2 ^ suc k - 1) / 2 ≡ 2 ^ k - 1 = omega (arith, one-le-pow k 2) in
    let small : r / 2 < 2 ^ k = omega arith in
    omega (
      arith,
      bit_and_halves (q * 2 ^ suc k + r) (2 ^ suc k - 1),
      ap₂ bit_and top odd,
      one-le-pow k 2,
      double_shift q k,
      bit_and_last k q (r / 2) small,
    )

-- A mask of `k` ones keeps the last `k` digits.
pub bit_and_low : (k a : ℕ) → bit_and a (2 ^ k - 1) ≡ a % 2 ^ k
bit_and_low k a =
    let parts : a / 2 ^ k * 2 ^ k + a % 2 ^ k ≡ a = omega (arith, one-le-pow k 2) in
    let small : a % 2 ^ k < 2 ^ k = omega (arith, one-le-pow k 2) in
    rw parts at (bit_and_last k (a / 2 ^ k) (a % 2 ^ k) small)

bit_nothing : (k : ℕ) → bit k 0 ≡ 0
bit_nothing zero = refl
bit_nothing (suc k) = bit_nothing k

half_pow : (n : ℕ) → 2 ^ suc n / 2 ≡ 2 ^ n
half_pow n = omega (arith, pow-suc 2 n)

-- The digits of a power of two
pub bit-pow_self : (n : ℕ) → bit n (2 ^ n) ≡ 1
bit-pow_self zero = refl
bit-pow_self (suc n) = ap (bit n) (half_pow n) ∙ bit-pow_self n

pub bit-pow_other : (n k : ℕ) → k ≢ n → bit k (2 ^ n) ≡ 0
bit-pow_other zero zero h = absurd (h refl)
bit-pow_other zero (suc k) h = bit_nothing k
bit-pow_other (suc n) zero h = omega (arith, pow-suc 2 n)
bit-pow_other (suc n) (suc k) h = ap (bit k) (half_pow n) ∙ bit-pow_other n k (λ e. h (ap suc e))

-- `w` is `v` with digit `n` set, and the others kept.
pub record WithBit (n v w : ℕ) : Type 0 where
  pub now : bit n w ≡ 1
  pub others : (k : ℕ) → k ≢ n → bit k w ≡ bit k v

pub bit_or-WithBit : (n v : ℕ) → WithBit n v (bit_or v (2 ^ n))
bit_or-WithBit n v = record {
  now = omega (arith, bit-bit_or n v (2 ^ n), bit-pow_self n, bit-lt n v);
  others = λ k h. omega (arith, bit-bit_or k v (2 ^ n), bit-pow_other n k h);
}
