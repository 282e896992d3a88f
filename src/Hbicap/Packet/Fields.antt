-- ===== src/Hbicap/Packet/Fields.antt =====
-- The fields of packet words in sw/rust/warpshell/src/cores/hbicap.rs.
use warpshell.Base.{ℕ, ◌+◌, ◌*◌, ◌/◌, ◌%◌, ◌^◌, ◌<◌, ◌≡◌, ap, ap₂, ◌∙◌, arith, bit_or, bit_and}
use warpshell.Base.Bits.{bit_or_disjoint, bit_and_low}
use warpshell.Hbicap.Packet.{
  Opcode, noop, opcode_code, ConfigLogicReg, crc, config_logic_reg_code, Type1Packet, type1_word,
  Type2Packet, type2_word, shl, type1_n_words_mask, type2_n_words_mask,
}

pub opcode_code-lt : (o : Opcode) → opcode_code o < 4
unfolding opcode_code
opcode_code-lt noop = omega arith
opcode_code-lt _ = omega arith

pub config_logic_reg_code-lt : (r : ConfigLogicReg) → config_logic_reg_code r < 32
unfolding config_logic_reg_code
config_logic_reg_code-lt crc = omega arith
config_logic_reg_code-lt _ = omega arith

-- `<<` into the upper bits loses nothing for fields of this size.
shifted : (k x : ℕ) → x * 2 ^ k < 2 ^ 32 → shl x k ≡ x * 2 ^ k
shifted k x h = omega arith

type1_parts :
    (o r n : ℕ)
    → o < 4
    → r < 32
    → bit_or (bit_or (bit_or (shl 1 29) (shl o 27)) (shl r 13)) (bit_and n type1_n_words_mask)
      ≡ 2 ^ 29 + o * 2 ^ 27 + r * 2 ^ 13 + n % 2 ^ 11
type1_parts o r n ho hr =
    let head : bit_or (shl 1 29) (shl o 27) ≡ (4 + o) * 2 ^ 27 =
      ap (bit_or (shl 1 29)) (shifted 27 o (omega arith))
      ∙ bit_or_disjoint 29 1 (o * 2 ^ 27) (omega arith)
      ∙ omega arith in
    let middle : bit_or ((4 + o) * 2 ^ 27) (shl r 13) ≡ ((4 + o) * 2 ^ 14 + r) * 2 ^ 13 =
      ap (bit_or ((4 + o) * 2 ^ 27)) (shifted 13 r (omega arith))
      ∙ bit_or_disjoint 27 (4 + o) (r * 2 ^ 13) (omega arith)
      ∙ omega arith in
    ap₂ (λ x y. bit_or (bit_or x (shl r 13)) y) head (bit_and_low 11 n)
    ∙ ap (λ x. bit_or x (n % 2 ^ 11)) middle
    ∙ bit_or_disjoint 13 ((4 + o) * 2 ^ 14 + r) (n % 2 ^ 11) (omega arith)
    ∙ omega arith

type2_parts :
    (o n : ℕ)
    → o < 4
    → bit_or (bit_or (shl 2 29) (shl o 27)) (bit_and n type2_n_words_mask)
      ≡ 2 ^ 30 + o * 2 ^ 27 + n % 2 ^ 27
type2_parts o n ho =
    let head : bit_or (shl 2 29) (shl o 27) ≡ (8 + o) * 2 ^ 27 =
      ap (bit_or (shl 2 29)) (shifted 27 o (omega arith))
      ∙ bit_or_disjoint 29 2 (o * 2 ^ 27) (omega arith)
      ∙ omega arith in
    ap₂ bit_or head (bit_and_low 27 n)
    ∙ bit_or_disjoint 27 (8 + o) (n % 2 ^ 27) (omega arith)
    ∙ omega arith

pub type1_sum :
    (p : Type1Packet)
    → type1_word p
      ≡ 2 ^ 29
        + opcode_code p.opcode * 2 ^ 27
        + config_logic_reg_code p.reg * 2 ^ 13
        + p.n_words % 2 ^ 11
unfolding type1_word
type1_sum p =
    type1_parts (opcode_code p.opcode) (config_logic_reg_code p.reg) p.n_words
      (opcode_code-lt p.opcode) (config_logic_reg_code-lt p.reg)

type1_word_fields :
    (p : Type1Packet)
    → let w = type1_word p in
      (w / 2 ^ 29 ≡ 1)
      × (w / 2 ^ 27 % 4 ≡ opcode_code p.opcode)
      × (w / 2 ^ 13 % 2 ^ 14 ≡ config_logic_reg_code p.reg)
      × (w / 2 ^ 11 % 4 ≡ 0)
      × (w % 2 ^ 11 ≡ p.n_words % 2 ^ 11)
type1_word_fields p =
    omega (arith, type1_sum p, opcode_code-lt p.opcode, config_logic_reg_code-lt p.reg)

pub type2_sum :
    (p : Type2Packet) → type2_word p ≡ 2 ^ 30 + opcode_code p.opcode * 2 ^ 27 + p.n_words % 2 ^ 27
unfolding type2_word
type2_sum p = type2_parts (opcode_code p.opcode) p.n_words (opcode_code-lt p.opcode)

type2_word_fields :
    (p : Type2Packet)
    → let w = type2_word p in
      (w / 2 ^ 29 ≡ 2) × (w / 2 ^ 27 % 4 ≡ opcode_code p.opcode) × (w % 2 ^ 27 ≡ p.n_words % 2 ^ 27)
type2_word_fields p = omega (arith, type2_sum p, opcode_code-lt p.opcode)

-- A type 1 header has 1 in its top bits, then the opcode in bits 28 to 27, the register in bits 26
-- to 13, zeros in bits 12 to 11, and the word count modulo 2 ^ 11 in the bits below. A type 2 header
-- has 2 in its top bits, then the opcode in bits 28 to 27, and the word count modulo 2 ^ 27 in the
-- bits below.
pub word_fields :
    (p : Type1Packet) (q : Type2Packet)
    → let v = type1_word p in
      let w = type2_word q in
      ((v / 2 ^ 29 ≡ 1)
        × (v / 2 ^ 27 % 4 ≡ opcode_code p.opcode)
        × (v / 2 ^ 13 % 2 ^ 14 ≡ config_logic_reg_code p.reg)
        × (v / 2 ^ 11 % 4 ≡ 0)
        × (v % 2 ^ 11 ≡ p.n_words % 2 ^ 11))
      × ((w / 2 ^ 29 ≡ 2)
          × (w / 2 ^ 27 % 4 ≡ opcode_code q.opcode)
          × (w % 2 ^ 27 ≡ q.n_words % 2 ^ 27))
word_fields p q = (type1_word_fields p, type2_word_fields q)

opcode_code-injective : (a b : Opcode) → opcode_code a ≡ opcode_code b → a ≡ b
unfolding opcode_code
opcode_code-injective noop b h = ground arith
opcode_code-injective _ b h = ground arith

config_logic_reg_code-injective :
    (a b : ConfigLogicReg) → config_logic_reg_code a ≡ config_logic_reg_code b → a ≡ b
unfolding config_logic_reg_code
config_logic_reg_code-injective crc b h = ground arith
config_logic_reg_code-injective _ b h = ground arith

-- Type 1 packets of at most 2 ^ 11 - 1 words have the same header only if they are the same.
type1_word-injective :
    (p q : Type1Packet)
    → p.n_words < 2 ^ 11
    → q.n_words < 2 ^ 11
    → type1_word p ≡ type1_word q
    → p ≡ q
type1_word-injective p q hp hq e =
    let fp = type1_word_fields p in
    let fq = type1_word_fields q in
    let o : p.opcode ≡ q.opcode = opcode_code-injective _ _ (omega arith) in
    let r : p.reg ≡ q.reg = config_logic_reg_code-injective _ _ (omega arith) in
    let n : p.n_words ≡ q.n_words = omega arith in
    λ i. record { opcode = o i; reg = r i; n_words = n i }
