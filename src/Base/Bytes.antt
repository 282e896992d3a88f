-- ===== src/Base/Bytes.antt =====
-- Machine words as numbers, and their little-endian bytes (Rust's `to_le_bytes`, `from_le_bytes`).
use Prim.Native.Nat.{ℕ, ◌+◌, ◌*◌, ◌/◌, ◌%◌, ◌^◌, ◌<◌}
use mathlib.Core.Path.{◌≡◌}
use mathlib.Core.List.{List, [], ◌∷◌, ◌++◌}
use native.Mathlib.Omega.{arith}
use warpshell.Base.Lists.{length, All}

abbrev pub u32 : ℕ → ℕ
u32 n = n % 2 ^ 32

abbrev pub u64 : ℕ → ℕ
u64 n = n % 2 ^ 64

-- `u32::to_le_bytes`
abbrev pub to_le_bytes : ℕ → List ℕ
to_le_bytes n = n % 256 ∷ n / 256 % 256 ∷ n / 65536 % 256 ∷ n / 16777216 % 256 ∷ []

-- `u32::from_le_bytes`, which the program applies to arrays of four bytes
unfoldable pub from_le_bytes : List ℕ → ℕ
from_le_bytes [] = 0
from_le_bytes (b ∷ bs) = b + 256 * from_le_bytes bs

-- The bytes of words in order, as `extend_from_slice(&w.to_le_bytes())` for each makes them
unfoldable pub words_to_bytes : List ℕ → List ℕ
words_to_bytes [] = []
words_to_bytes (w ∷ ws) = to_le_bytes w ++ words_to_bytes ws

abbrev pub IsByte : ℕ → Type 0
IsByte b = b < 256

pub from_le_bytes-to_le_bytes : (n : ℕ) → n < 2 ^ 32 → from_le_bytes (to_le_bytes n) ≡ n
unfolding from_le_bytes
from_le_bytes-to_le_bytes n h = omega arith

pub from_le_bytes-lt : (bs : List ℕ) → length bs ≡ 4 → All IsByte bs → from_le_bytes bs < 2 ^ 32
unfolding from_le_bytes
from_le_bytes-lt (a ∷ b ∷ c ∷ d ∷ []) e h = omega arith
from_le_bytes-lt (a ∷ b ∷ c ∷ d ∷ x ∷ r) e h = absurd (omega arith)
from_le_bytes-lt (a ∷ b ∷ c ∷ []) e h = absurd (omega arith)
from_le_bytes-lt (a ∷ b ∷ []) e h = absurd (omega arith)
from_le_bytes-lt (a ∷ []) e h = absurd (omega arith)
from_le_bytes-lt [] e h = absurd (omega arith)
