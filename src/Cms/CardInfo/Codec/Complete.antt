-- ===== src/Cms/CardInfo/Codec/Complete.antt =====
-- `CardInfoItem::try_from` of sw/rust/warpshell/src/cores/cms.rs on the byte form of an item.
use warpshell.Base.{ℕ, List, [], ◌∷◌, ◌++◌, ◌≡◌, refl, ap, arith, length}
use warpshell.Outcome.{Outcome, ok}
use warpshell.Cms.CardInfo.Item.{
  CardInfoItem, serial_number_item, mac_address0_item, mac_address1_item, mac_address2_item,
  mac_address3_item, card_rev_item, card_name_item, satellite_version_item, total_power_avail_item,
  fan_presence_item, config_mode_item, new_mac_scheme_item, cage_type0_item, cage_type1_item,
  cage_type2_item, cage_type3_item, parse_string, parse_byte, parse_value, next, item_try_from,
}
use warpshell.Cms.CardInfo.Item.Key.{
  total_power_avail_code, power_try_from, config_mode_code, mode_try_from, cage_type_code,
  cage_try_from, CardInfoItemParseError,
}
use warpshell.Cms.CardInfo.Item.Codes.{key_complete, power_complete, mode_complete, cage_complete}
use warpshell.Cms.CardInfo.Codec.Steps.{
  parse_string-append, parse_byte-cons, parse_new_mac-append, length-terminated,
}
use warpshell.Cms.CardInfo.Codec.{item_key, ValueOf, Encodes}

module _ (rest : List ℕ) where
  string_complete :
      (item : List ℕ → CardInfoItem) (v value : List ℕ)
      → value ≡ v ++ (0 ∷ [])
      → parse_string item (length value) (value ++ rest) ≡ ok (item v, rest)
  string_complete item v value e = rw (e, length-terminated) (parse_string-append item v rest)

  byte_complete :
      {A : Type 0} (convert : ℕ → Outcome CardInfoItemParseError A) (code : A → ℕ)
      (item : A → CardInfoItem) (a : A) (value : List ℕ)
      → convert (code a) ≡ ok a
      → value ≡ code a ∷ []
      → parse_byte convert item (length value) (value ++ rest) ≡ ok (item a, rest)
  byte_complete convert code item a value c e = rw e (parse_byte-cons convert item (code a) rest c)

  parse_value_complete :
      (i : CardInfoItem) (value : List ℕ)
      → ValueOf i value
      → parse_value (item_key i) (length value) (value ++ rest) ≡ ok (i, rest)
  unfolding parse_value
  parse_value_complete (serial_number_item v) value e = string_complete serial_number_item v value e
  parse_value_complete (mac_address0_item v) value e = absurd e
  parse_value_complete (mac_address1_item v) value e = absurd e
  parse_value_complete (mac_address2_item v) value e = absurd e
  parse_value_complete (mac_address3_item v) value e = absurd e
  parse_value_complete (card_rev_item v) value e = string_complete card_rev_item v value e
  parse_value_complete (card_name_item v) value e = string_complete card_name_item v value e
  parse_value_complete (satellite_version_item v) value e =
      string_complete satellite_version_item v value e
  parse_value_complete (total_power_avail_item p) value e =
      byte_complete power_try_from total_power_avail_code total_power_avail_item p value
        (power_complete p) e
  parse_value_complete (fan_presence_item f) value e =
      byte_complete ok (λ b. b) fan_presence_item f value refl e
  parse_value_complete (config_mode_item m) value e =
      byte_complete mode_try_from config_mode_code config_mode_item m value (mode_complete m) e
  parse_value_complete (new_mac_scheme_item n mac) value (reserved, e, six) =
      let eight : length value ≡ 8 = omega (arith, ap length e) in
      rw (eight, e) (parse_new_mac-append n reserved mac rest six)
  parse_value_complete (cage_type0_item t) value e =
      byte_complete cage_try_from cage_type_code cage_type0_item t value (cage_complete t) e
  parse_value_complete (cage_type1_item t) value e =
      byte_complete cage_try_from cage_type_code cage_type1_item t value (cage_complete t) e
  parse_value_complete (cage_type2_item t) value e =
      byte_complete cage_try_from cage_type_code cage_type2_item t value (cage_complete t) e
  parse_value_complete (cage_type3_item t) value e =
      byte_complete cage_try_from cage_type_code cage_type3_item t value (cage_complete t) e

pub item_complete :
    (i : CardInfoItem) (bytes rest : List ℕ)
    → Encodes i bytes
    → item_try_from (bytes ++ rest) ≡ ok i
unfolding item_try_from next
item_complete i bytes rest h =
    rw h.framed
      (ground (arith, key_complete (item_key i), parse_value_complete rest i h.value h.valued))
