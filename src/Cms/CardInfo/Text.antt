-- ===== src/Cms/CardInfo/Text.antt =====
-- The texts of card information: `as_string` and the `#[display]` attributes of
-- sw/rust/warpshell/src/cores/cms.rs, and of `ByteString` in sw/rust/warpshell/src/lib.rs. A text is
-- the list of its code points.
pub mod Mac
pub mod Lines
use Prim.Native.Char.{code}
use Prim.Native.String.{String}
use warpshell.Base.{ℕ, ◌+◌, ◌/◌, ◌%◌, List, [], ◌∷◌, ◌++◌, map, ltb, if◌then◌else◌}
use warpshell.Cms.CardInfo.Item.{
  CardInfoItem, serial_number_item, card_rev_item, card_name_item, satellite_version_item,
  mac_address0_item, mac_address1_item, mac_address2_item, mac_address3_item,
  total_power_avail_item, fan_presence_item, config_mode_item, new_mac_scheme_item, cage_type0_item,
  cage_type1_item, cage_type2_item, cage_type3_item,
}
use warpshell.Cms.CardInfo.Item.Key.{
  TotalPowerAvail, power_75w, power_150w, power_225w, power_300w, ConfigMode, CageType,
  slave_serial_x1, slave_select_map_x8, slave_map_x16, slave_select_map_x32, jtag_boudary_scan_x1,
  master_spi_x1, master_spi_x2, master_spi_x4, master_spi_x8, master_spi_x16, master_serial_x1,
  master_select_map_x8, master_select_map_x16, qsfp, dsfp, sfp,
}

abbrev pub Text : Type 0
Text = List ℕ

abbrev pub codes : String → Text
codes String.[] = []
codes (String.◌∷◌ c s) = code c ∷ codes s

-- `byte as char`: the code point of the same number
unfoldable pub as_char : ℕ → ℕ
as_char b = b

-- `ByteString::as_string`
unfoldable pub as_string : List ℕ → Text
unfolding as_char
as_string bytes = map as_char bytes

-- `OldMacAddress::as_string`, the same on 16 bytes
abbrev old_mac_as_string : List ℕ → Text
old_mac_as_string = as_string

abbrev pub hex_digit : ℕ → ℕ
hex_digit d = if ltb d 10 then b'0' + d else 87 + d

-- `{:02x}` of a `u8`
unfoldable pub hex2 : ℕ → Text
hex2 b = hex_digit (b / 16) ∷ hex_digit (b % 16) ∷ []

-- `octets.join(":")`
unfoldable pub join : List Text → Text
join [] = []
join (t ∷ []) = t
join (t ∷ u ∷ ts) = t ++ b':' ∷ join (u ∷ ts)

unfoldable pub mac_as_string : List ℕ → Text
unfolding hex2 join
mac_as_string octets = join (map hex2 octets)

-- A `u8` in decimal
unfoldable pub decimal : ℕ → Text
decimal n =
    if ltb n 10
    then (b'0' + n) ∷ []
    else if ltb n 100
    then (b'0' + n / 10) ∷ (b'0' + n % 10) ∷ []
    else (b'0' + n / 100) ∷ (b'0' + n / 10 % 10) ∷ (b'0' + n % 10) ∷ []

unfoldable pub total_power_avail_text : TotalPowerAvail → String
total_power_avail_text power_75w = "75W"
total_power_avail_text power_150w = "150W"
total_power_avail_text power_225w = "225W"
total_power_avail_text power_300w = "300W"

-- `#[display(Debug)]`: the name of the variant
unfoldable pub config_mode_text : ConfigMode → String
config_mode_text slave_serial_x1 = "SlaveSerialX1"
config_mode_text slave_select_map_x8 = "SlaveSelectMapX8"
config_mode_text slave_map_x16 = "SlaveMapX16"
config_mode_text slave_select_map_x32 = "SlaveSelectMapX32"
config_mode_text jtag_boudary_scan_x1 = "JtagBoudaryScanX1"
config_mode_text master_spi_x1 = "MasterSpiX1"
config_mode_text master_spi_x2 = "MasterSpiX2"
config_mode_text master_spi_x4 = "MasterSpiX4"
config_mode_text master_spi_x8 = "MasterSpiX8"
config_mode_text master_spi_x16 = "MasterSpiX16"
config_mode_text master_serial_x1 = "MasterSerialX1"
config_mode_text master_select_map_x8 = "MasterSelectMapX8"
config_mode_text master_select_map_x16 = "MasterSelectMapX16"

-- `#[display(uppercase)]`
unfoldable pub cage_type_text : CageType → String
cage_type_text qsfp = "QSFP"
cage_type_text dsfp = "DSFP"
cage_type_text sfp = "SFP"

unfoldable pub item_text : CardInfoItem → Text
unfolding as_string mac_as_string decimal total_power_avail_text config_mode_text cage_type_text
item_text (serial_number_item v) = codes "serial number: " ++ as_string v
item_text (mac_address0_item v) = codes "MAC address 0: " ++ old_mac_as_string v
item_text (mac_address1_item v) = codes "MAC address 1: " ++ old_mac_as_string v
item_text (mac_address2_item v) = codes "MAC address 2: " ++ old_mac_as_string v
item_text (mac_address3_item v) = codes "MAC address 3: " ++ old_mac_as_string v
item_text (card_rev_item v) = codes "card revision: " ++ as_string v
item_text (card_name_item v) = codes "card name: " ++ as_string v
item_text (satellite_version_item v) = codes "satellite controller version: " ++ as_string v
item_text (total_power_avail_item p) =
    codes "total power available: " ++ codes (total_power_avail_text p)
item_text (fan_presence_item b) = codes "fan presence: " ++ as_char b ∷ []
item_text (config_mode_item m) = codes "config mode: " ++ codes (config_mode_text m)
item_text (new_mac_scheme_item n mac) =
    codes "new MAC scheme: "
    ++ (decimal n ++ (codes " addresses starting from " ++ mac_as_string mac))
item_text (cage_type0_item t) = codes "cage 0 type: " ++ codes (cage_type_text t)
item_text (cage_type1_item t) = codes "cage 1 type: " ++ codes (cage_type_text t)
item_text (cage_type2_item t) = codes "cage 2 type: " ++ codes (cage_type_text t)
item_text (cage_type3_item t) = codes "cage 3 type: " ++ codes (cage_type_text t)

-- `CardInfo::as_string`: each item, and a line feed behind it
unfoldable pub card_info_as_string : List CardInfoItem → Text
unfolding item_text
card_info_as_string [] = []
card_info_as_string (item ∷ items) = item_text item ++ 10 ∷ card_info_as_string items
