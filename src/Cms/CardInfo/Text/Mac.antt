-- ===== src/Cms/CardInfo/Text/Mac.antt =====
-- `MacAddress::as_string` of sw/rust/warpshell/src/cores/cms.rs and a reader of its texts.
use warpshell.Base.{
  ℕ, ◌+◌, ◌-◌, ◌*◌, ◌/◌, ◌%◌, ◌<◌, List, [], ◌∷◌, ◌==◌, Option, none, some, ◌≡◌, refl, ap, arith,
  length, All, leb, if◌then◌else◌,
}
use warpshell.Cms.CardInfo.Text.{Text, hex_digit, hex2, join, mac_as_string}

-- The value of a hexadecimal digit, the letters in lower case
abbrev hex_value : ℕ → Option ℕ
hex_value c =
    if leb b'0' c
    then if leb c b'9'
      then some (c - b'0')
      else if leb b'a' c
      then if leb c b'f' then some (c - b'a' + 10) else none
      else none
    else none

abbrev octet_of : Option ℕ → Option ℕ → Option ℕ
octet_of (some h) (some l) = some (16 * h + l)
octet_of _ _ = none

abbrev prepend : Option ℕ → Option (List ℕ) → Option (List ℕ)
prepend (some o) (some os) = some (o ∷ os)
prepend _ _ = none

-- Octets of two digits each, with a colon between each two
unfoldable pub read_octets : Text → Option (List ℕ)
read_octets (h ∷ l ∷ []) = prepend (octet_of (hex_value h) (hex_value l)) (some [])
read_octets (h ∷ l ∷ c ∷ text) =
    let rest = read_octets text in
    if c == b':' then prepend (octet_of (hex_value h) (hex_value l)) rest else none
read_octets _ = none

hex_value-hex_digit : (d : ℕ) → d < 16 → hex_value (hex_digit d) ≡ some d
hex_value-hex_digit d h = ground arith

octet :
    (b : ℕ)
    → b < 256
    → octet_of (hex_value (hex_digit (b / 16))) (hex_value (hex_digit (b % 16))) ≡ some b
octet b h =
    rw (hex_value-hex_digit (b / 16) (omega arith), hex_value-hex_digit (b % 16) (omega arith))
      (ap some (omega arith))

-- The text of a MAC address of any number of octets, but at least one, has two characters for each
-- octet and one between each two of them, and the octets can be read back from it.
pub mac_as_string_lem :
    (b : ℕ) (octets : List ℕ)
    → All (λ o. o < 256) (b ∷ octets)
    → (length (mac_as_string (b ∷ octets)) ≡ 2 + 3 * length octets)
      × (read_octets (mac_as_string (b ∷ octets)) ≡ some (b ∷ octets))
unfolding mac_as_string hex2 join read_octets
mac_as_string_lem b [] (h, t) = (omega arith, rw (octet b h) refl)
mac_as_string_lem b (o ∷ octets) (h, t) =
    let (len, read) = mac_as_string_lem o octets t in
    (omega (arith, len), rw (octet b h, read) refl)
