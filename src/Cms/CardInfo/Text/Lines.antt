-- ===== src/Cms/CardInfo/Text/Lines.antt =====
-- The lines of card information, as `CardInfo::as_string` of sw/rust/warpshell/src/cores/cms.rs has
-- them.
use warpshell.Base.{
  ℕ, List, [], ◌∷◌, ◌++◌, Bool, true, false, not, ◌&&◌, ◌==◌, ◌≡◌, refl, ap, ◌∙◌, arith, All,
  if◌then◌else◌, map,
}
use warpshell.Cms.CardInfo.Item.{
  CardInfoItem, serial_number_item, card_rev_item, card_name_item, satellite_version_item,
  mac_address0_item, mac_address1_item, mac_address2_item, mac_address3_item,
  total_power_avail_item, fan_presence_item, config_mode_item, new_mac_scheme_item, cage_type0_item,
  cage_type1_item, cage_type2_item, cage_type3_item,
}
use warpshell.Cms.CardInfo.Item.Key.{
  TotalPowerAvail, power_75w, power_150w, power_225w, power_300w, ConfigMode, slave_serial_x1,
  slave_select_map_x8, slave_map_x16, slave_select_map_x32, jtag_boudary_scan_x1, master_spi_x1,
  master_spi_x2, master_spi_x4, master_spi_x8, master_spi_x16, master_serial_x1,
  master_select_map_x8, master_select_map_x16, CageType, qsfp, dsfp, sfp,
}
use warpshell.Cms.CardInfo.Text.{
  Text, as_char, as_string, hex2, join, mac_as_string, decimal, total_power_avail_text,
  config_mode_text, cage_type_text, item_text, card_info_as_string, codes,
}

-- A text without a line feed
abbrev pub feedless : Text → Bool
feedless [] = true
feedless (c ∷ text) = not (c == 10) && feedless text

abbrev first_char : ℕ → List Text → List Text
first_char c [] = (c ∷ []) ∷ []
first_char c (line ∷ lines) = (c ∷ line) ∷ lines

-- The lines of a text that ends in a line feed
unfoldable pub lines : Text → List Text
lines [] = []
lines (c ∷ text) = let rest = lines text in if c == 10 then [] ∷ rest else first_char c rest

-- The bytes that an item's text shows as characters
abbrev pub shown : CardInfoItem → List ℕ
shown (serial_number_item v) = v
shown (mac_address0_item v) = v
shown (mac_address1_item v) = v
shown (mac_address2_item v) = v
shown (mac_address3_item v) = v
shown (card_rev_item v) = v
shown (card_name_item v) = v
shown (satellite_version_item v) = v
shown (fan_presence_item b) = b ∷ []
shown _ = []

feedless-append : (t u : Text) → feedless (t ++ u) ≡ (feedless t && feedless u)
feedless-append [] u = refl
feedless-append (c ∷ t) u =
    rw (feedless-append t u) (assoc (not (c == 10)) (feedless t) (feedless u))
  where
    assoc : (a b c : Bool) → (a && (b && c)) ≡ ((a && b) && c)
    assoc true b c = refl
    assoc false b c = refl

-- A text is its first line, where it has a line feed.
lines-append : (t u : Text) → feedless t ≡ true → lines (t ++ 10 ∷ u) ≡ t ∷ lines u
unfolding lines
lines-append [] u h = refl
lines-append (c ∷ t) u h =
    let other : (c == 10) ≡ false = ground arith in
    let inner : feedless t ≡ true = ground arith in rw (other, lines-append t u inner) refl

feedless-as_string : (v : List ℕ) → feedless (as_string v) ≡ feedless v
unfolding as_string as_char
feedless-as_string [] = refl
feedless-as_string (b ∷ v) = rw (feedless-as_string v) refl

feedless-hex2 : (b : ℕ) (t : Text) → feedless t ≡ true → feedless (hex2 b ++ t) ≡ true
unfolding hex2
feedless-hex2 b t h = ground arith

feedless-mac_as_string : (octets : List ℕ) → feedless (mac_as_string octets) ≡ true
unfolding mac_as_string join hex2
feedless-mac_as_string [] = refl
feedless-mac_as_string (b ∷ []) = feedless-hex2 b [] refl
feedless-mac_as_string (b ∷ o ∷ octets) =
    feedless-hex2 b (58 ∷ join (hex2 o ∷ map hex2 octets))
      (rw (feedless-mac_as_string (o ∷ octets)) refl)

feedless-decimal : (n : ℕ) → feedless (decimal n) ≡ true
unfolding decimal
feedless-decimal n = ground arith

feedless-power : (p : TotalPowerAvail) → feedless (codes (total_power_avail_text p)) ≡ true
unfolding total_power_avail_text
feedless-power power_75w = refl
feedless-power power_150w = refl
feedless-power power_225w = refl
feedless-power power_300w = refl

feedless-mode : (m : ConfigMode) → feedless (codes (config_mode_text m)) ≡ true
unfolding config_mode_text
feedless-mode slave_serial_x1 = refl
feedless-mode slave_select_map_x8 = refl
feedless-mode slave_map_x16 = refl
feedless-mode slave_select_map_x32 = refl
feedless-mode jtag_boudary_scan_x1 = refl
feedless-mode master_spi_x1 = refl
feedless-mode master_spi_x2 = refl
feedless-mode master_spi_x4 = refl
feedless-mode master_spi_x8 = refl
feedless-mode master_spi_x16 = refl
feedless-mode master_serial_x1 = refl
feedless-mode master_select_map_x8 = refl
feedless-mode master_select_map_x16 = refl

feedless-cage : (t : CageType) → feedless (codes (cage_type_text t)) ≡ true
unfolding cage_type_text
feedless-cage qsfp = refl
feedless-cage dsfp = refl
feedless-cage sfp = refl

both : (t u : Text) → feedless t ≡ true → feedless u ≡ true → feedless (t ++ u) ≡ true
both t u h k = rw (feedless-append t u, h, k) refl

feedless-new_mac : (n : ℕ) (mac : List ℕ) → feedless (item_text (new_mac_scheme_item n mac)) ≡ true
unfolding item_text
feedless-new_mac n mac =
    let rest : Text = codes " addresses starting from " ++ mac_as_string mac in
    both (codes "new MAC scheme: ") (decimal n ++ rest) refl (
      both (decimal n) rest (feedless-decimal n) (
        both (codes " addresses starting from ") (mac_as_string mac) refl
          (feedless-mac_as_string mac)))

feedless-item_text : (item : CardInfoItem) → feedless (item_text item) ≡ feedless (shown item)
unfolding item_text as_char
feedless-item_text (serial_number_item v) = feedless-as_string v
feedless-item_text (mac_address0_item v) = feedless-as_string v
feedless-item_text (mac_address1_item v) = feedless-as_string v
feedless-item_text (mac_address2_item v) = feedless-as_string v
feedless-item_text (mac_address3_item v) = feedless-as_string v
feedless-item_text (card_rev_item v) = feedless-as_string v
feedless-item_text (card_name_item v) = feedless-as_string v
feedless-item_text (satellite_version_item v) = feedless-as_string v
feedless-item_text (total_power_avail_item p) = feedless-power p
feedless-item_text (fan_presence_item b) = refl
feedless-item_text (config_mode_item m) = feedless-mode m
feedless-item_text (new_mac_scheme_item n mac) = feedless-new_mac n mac
feedless-item_text (cage_type0_item t) = feedless-cage t
feedless-item_text (cage_type1_item t) = feedless-cage t
feedless-item_text (cage_type2_item t) = feedless-cage t
feedless-item_text (cage_type3_item t) = feedless-cage t

-- If no string, old MAC address or fan presence of the items has a line feed in it, then the lines
-- of the card information's text are the texts of the items, one line for each, in order.
pub lines-card_info_as_string :
    (items : List CardInfoItem)
    → All (λ item. feedless (shown item) ≡ true) items
    → lines (card_info_as_string items) ≡ map item_text items
unfolding card_info_as_string lines
lines-card_info_as_string [] h = refl
lines-card_info_as_string (item ∷ items) (h, t) =
    lines-append (item_text item) (card_info_as_string items) (feedless-item_text item ∙ h)
    ∙ ap (λ l. item_text item ∷ l) (lines-card_info_as_string items t)
