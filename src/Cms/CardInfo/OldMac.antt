-- ===== src/Cms/CardInfo/OldMac.antt =====
-- Items with an old MAC address, in sw/rust/warpshell/src/cores/cms.rs.
use warpshell.Base.{ℕ, ◌≤◌, List, [], ◌∷◌, ◌++◌, ◌≡◌, ◌≢◌, ap, ◌∙◌, arith}
use warpshell.Outcome.{ok}
use warpshell.Cms.CardInfo.Item.{
  CardInfoItem, mac_address0_item, mac_address1_item, mac_address2_item, mac_address3_item,
  item_try_from,
}
use warpshell.Cms.CardInfo.Item.Key.{card_info_key_code}
use warpshell.Cms.CardInfo.Codec.{item_key, ValueOf}
use warpshell.Cms.CardInfo.Codec.Items.{item_try_from_iff}

first : List ℕ → ℕ
first [] = 0
first (b ∷ bytes) = b

not_old_mac :
    (i : CardInfoItem) (value : List ℕ)
    → ValueOf i value
    → 0x22 ≤ card_info_key_code (item_key i)
    → card_info_key_code (item_key i) ≤ 0x25
    → ⊥
unfolding card_info_key_code
not_old_mac (mac_address0_item m) value v h k = v
not_old_mac (mac_address1_item m) value v h k = v
not_old_mac (mac_address2_item m) value v h k = v
not_old_mac (mac_address3_item m) value v h k = v
not_old_mac _ value v h k = omega arith

-- No input whose first byte is the key of one of the four old MAC addresses parses to an item.
pub item_try_from-old_mac :
    (key : ℕ) (input : List ℕ) (i : CardInfoItem)
    → 0x22 ≤ key
    → key ≤ 0x25
    → item_try_from (key ∷ input) ≢ ok i
unfolding first
item_try_from-old_mac key input i h k e =
    let (bytes, rest, enc, split) = (item_try_from_iff (key ∷ input) i).0 e in
    let same : key ≡ card_info_key_code (item_key i) =
      ap first (split ∙ ap (λ b. b ++ rest) enc.framed) in
    not_old_mac i enc.value enc.valued (omega arith) (omega arith)
