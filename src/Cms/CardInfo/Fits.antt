-- ===== src/Cms/CardInfo/Fits.antt =====
-- The values that card information of sw/rust/warpshell/src/cores/cms.rs can hold.
use warpshell.Base.{
  ℕ, ◌*◌, ◌≤◌, ◌<◌, List, [], ◌∷◌, ◌++◌, ◌≡◌, subst, ap, arith, length, length-append, All,
}
use warpshell.Base.Bytes.{IsByte}
use warpshell.Outcome.{ok}
use warpshell.Cms.CardInfo.{card_info_try_from}
use warpshell.Cms.CardInfo.Item.{
  CardInfoItem, serial_number_item, mac_address0_item, mac_address1_item, mac_address2_item,
  mac_address3_item, card_rev_item, card_name_item, satellite_version_item, total_power_avail_item,
  fan_presence_item, config_mode_item, new_mac_scheme_item, cage_type0_item, cage_type1_item,
  cage_type2_item, cage_type3_item,
}
use warpshell.Cms.CardInfo.Codec.{ValueOf, ValueOf-pos}
use warpshell.Cms.CardInfo.Messages.{Message, stop, item}
use warpshell.Cms.CardInfo.Messages.Verdict.{card_info_try_from_iff}

All-append : (v w : List ℕ) → All IsByte (v ++ w) → All IsByte v × All IsByte w
All-append [] w h = (tt, h)
All-append (b ∷ v) w (p, h) = let (q, r) = All-append v w h in ((p, q), r)

-- A string of bytes, with its length in a byte behind which a terminator has room
abbrev pub FitsText : List ℕ → Type 0
FitsText v = (length v < 255) × All IsByte v

-- Every number in the item is in the range of its Rust type, and an array has its length.
abbrev pub Fits : CardInfoItem → Type 0
Fits (serial_number_item v) = FitsText v
Fits (mac_address0_item v) = (length v ≡ 16) × All IsByte v
Fits (mac_address1_item v) = (length v ≡ 16) × All IsByte v
Fits (mac_address2_item v) = (length v ≡ 16) × All IsByte v
Fits (mac_address3_item v) = (length v ≡ 16) × All IsByte v
Fits (card_rev_item v) = FitsText v
Fits (card_name_item v) = FitsText v
Fits (satellite_version_item v) = FitsText v
Fits (fan_presence_item b) = IsByte b
Fits (new_mac_scheme_item n mac) = IsByte n × (length mac ≡ 6) × All IsByte mac
Fits _ = Unit

text :
    (v value : List ℕ) → value ≡ v ++ (0 ∷ []) → length value < 256 → All IsByte value → FitsText v
text v value e short bytes = (
  omega (arith, ap length e, length-append v (0 ∷ []), short),
  (All-append v (0 ∷ []) (subst (All IsByte) e bytes)).0,
)

value-Fits :
    (i : CardInfoItem) (value : List ℕ)
    → ValueOf i value
    → length value < 256
    → All IsByte value
    → Fits i
value-Fits (serial_number_item v) value e short bytes = text v value e short bytes
value-Fits (card_rev_item v) value e short bytes = text v value e short bytes
value-Fits (card_name_item v) value e short bytes = text v value e short bytes
value-Fits (satellite_version_item v) value e short bytes = text v value e short bytes
value-Fits (mac_address0_item v) value e short bytes = absurd e
value-Fits (mac_address1_item v) value e short bytes = absurd e
value-Fits (mac_address2_item v) value e short bytes = absurd e
value-Fits (mac_address3_item v) value e short bytes = absurd e
value-Fits (fan_presence_item b) value e short bytes = (subst (All IsByte) e bytes).0
value-Fits (new_mac_scheme_item n mac) value (reserved, e, six) short bytes =
    let (p, (q, r)) = subst (All IsByte) e bytes in (p, six, r)
value-Fits (total_power_avail_item p) value e short bytes = tt
value-Fits (config_mode_item m) value e short bytes = tt
value-Fits (cage_type0_item t) value e short bytes = tt
value-Fits (cage_type1_item t) value e short bytes = tt
value-Fits (cage_type2_item t) value e short bytes = tt
value-Fits (cage_type3_item t) value e short bytes = tt

Message-Fits :
    {r : List ℕ} {items : List CardInfoItem}
    → Message r items
    → All IsByte r
    → All Fits items × (3 * length items ≤ length r)
Message-Fits (stop short) bytes = (tt, omega arith)
Message-Fits (item {r} {rest} {items} form i enc cut more) bytes =
    let (b, c) = All-append form rest (subst (All IsByte) cut bytes) in
    let (key, (len, value)) = subst (All IsByte) enc.framed b in
    let (fit, few) = Message-Fits more c in
    let pos = ValueOf-pos i enc.value enc.valued in
    (
      (value-Fits i enc.value enc.valued len value, fit),
      omega (arith, few, pos, ap length enc.framed, ap length cut, length-append form rest),
    )

-- Card information that is parsed from bytes fits the types of the source: every number in it is in
-- the range of its type, every array has its length, and no string is longer than 254 bytes. It has at
-- most one item for each three bytes.
pub card_info_try_from-Fits :
    (input : List ℕ) (items : List CardInfoItem)
    → All IsByte input
    → card_info_try_from input ≡ ok items
    → All Fits items × (3 * length items ≤ length input)
card_info_try_from-Fits input items bytes h =
    Message-Fits ((card_info_try_from_iff input items).0 h) bytes
