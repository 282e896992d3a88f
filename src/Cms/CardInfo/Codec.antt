-- ===== src/Cms/CardInfo/Codec.antt =====
-- The byte form of an item, stated apart from the parser: a key, a length, and a value of that
-- length, which `ValueOf` describes for each kind of item.
pub mod Steps
pub mod Sound
pub mod Complete
pub mod Items
use warpshell.Base.{
  ℕ, zero, suc, ◌+◌, List, [], ◌∷◌, ◌++◌, ◌≡◌, refl, sym, ap, ap₂, subst, inl, inr, ◌∙◌, ◌↔◌, arith,
  length, ◌<◌, length-append,
}
use warpshell.Outcome.{Outcome, ok, err, panic, Outcome-cases}
use warpshell.Cms.CardInfo.Item.{
  CardInfoItem, serial_number_item, mac_address0_item, mac_address1_item, mac_address2_item,
  mac_address3_item, card_rev_item, card_name_item, satellite_version_item, total_power_avail_item,
  fan_presence_item, config_mode_item, new_mac_scheme_item, cage_type0_item, cage_type1_item,
  cage_type2_item, cage_type3_item, parse_string, parse_old_mac, parse_byte, parse_new_mac,
  parse_value, next, item_try_from,
}
use warpshell.Cms.CardInfo.Item.Key.{
  CardInfoKey, serial_number, mac_address0, mac_address1, mac_address2, mac_address3, card_rev,
  card_name, satellite_version, total_power_avail, fan_presence, config_mode, new_mac_scheme,
  cage_type0, cage_type1, cage_type2, cage_type3, card_info_key_code, key_try_from,
  total_power_avail_code, power_try_from, config_mode_code, mode_try_from, cage_type_code,
  cage_try_from, CardInfoItemParseError,
}
use warpshell.Cms.CardInfo.Item.Codes.{
  key_sound, key_complete, power_sound, power_complete, mode_sound, mode_complete, cage_sound,
  cage_complete,
}
use Steps.{
  >>=-eq-ok, parse_string-append, parse_string_sound, parse_old_mac_fails, parse_byte-cons,
  parse_byte_sound, parse_new_mac-append, parse_new_mac_sound, length-terminated,
}

abbrev pub item_key : CardInfoItem → CardInfoKey
item_key (serial_number_item v) = serial_number
item_key (mac_address0_item v) = mac_address0
item_key (mac_address1_item v) = mac_address1
item_key (mac_address2_item v) = mac_address2
item_key (mac_address3_item v) = mac_address3
item_key (card_rev_item v) = card_rev
item_key (card_name_item v) = card_name
item_key (satellite_version_item v) = satellite_version
item_key (total_power_avail_item p) = total_power_avail
item_key (fan_presence_item f) = fan_presence
item_key (config_mode_item m) = config_mode
item_key (new_mac_scheme_item n mac) = new_mac_scheme
item_key (cage_type0_item t) = cage_type0
item_key (cage_type1_item t) = cage_type1
item_key (cage_type2_item t) = cage_type2
item_key (cage_type3_item t) = cage_type3

-- No value stands for an old MAC address: the parser asks for 17 bytes before the terminator, and
-- puts them into an array of 16.
abbrev pub ValueOf : CardInfoItem → List ℕ → Type 0
ValueOf (serial_number_item v) value = value ≡ v ++ (0 ∷ [])
ValueOf (mac_address0_item v) value = ⊥
ValueOf (mac_address1_item v) value = ⊥
ValueOf (mac_address2_item v) value = ⊥
ValueOf (mac_address3_item v) value = ⊥
ValueOf (card_rev_item v) value = value ≡ v ++ (0 ∷ [])
ValueOf (card_name_item v) value = value ≡ v ++ (0 ∷ [])
ValueOf (satellite_version_item v) value = value ≡ v ++ (0 ∷ [])
ValueOf (total_power_avail_item p) value = value ≡ total_power_avail_code p ∷ []
ValueOf (fan_presence_item f) value = value ≡ f ∷ []
ValueOf (config_mode_item m) value = value ≡ config_mode_code m ∷ []
ValueOf (new_mac_scheme_item n mac) value =
    (reserved : ℕ) × (value ≡ n ∷ reserved ∷ mac) × (length mac ≡ 6)
ValueOf (cage_type0_item t) value = value ≡ cage_type_code t ∷ []
ValueOf (cage_type1_item t) value = value ≡ cage_type_code t ∷ []
ValueOf (cage_type2_item t) value = value ≡ cage_type_code t ∷ []
ValueOf (cage_type3_item t) value = value ≡ cage_type_code t ∷ []

-- `bytes` is the form of `item`.
pub record Encodes (item : CardInfoItem) (bytes : List ℕ) : Type 0 where
  pub value : List ℕ
  pub framed : bytes ≡ card_info_key_code (item_key item) ∷ length value ∷ value
  pub valued : ValueOf item value

pub ValueOf-pos : (i : CardInfoItem) (value : List ℕ) → ValueOf i value → 0 < length value
ValueOf-pos (serial_number_item v) value e = omega (arith, ap length e, length-terminated v)
ValueOf-pos (card_rev_item v) value e = omega (arith, ap length e, length-terminated v)
ValueOf-pos (card_name_item v) value e = omega (arith, ap length e, length-terminated v)
ValueOf-pos (satellite_version_item v) value e = omega (arith, ap length e, length-terminated v)
ValueOf-pos (new_mac_scheme_item n mac) value (reserved, e, six) = omega (arith, ap length e)
ValueOf-pos (mac_address0_item v) value e = absurd e
ValueOf-pos (mac_address1_item v) value e = absurd e
ValueOf-pos (mac_address2_item v) value e = absurd e
ValueOf-pos (mac_address3_item v) value e = absurd e
ValueOf-pos _ value e = omega (arith, ap length e)
