-- ===== src/Cms/CardInfo/Item/Key.antt =====
-- The enumerations of sw/rust/warpshell/src/cores/cms.rs that card information is made of, and the
-- parsing of their codes (`TryFromPrimitive`).
use warpshell.Base.{ℕ, ◌==◌, if◌then◌else◌}
use warpshell.Outcome.{Outcome, ok, err}

pub data CardInfoKey : Type 0 where
  serial_number mac_address0 mac_address1 mac_address2 mac_address3 card_rev : CardInfoKey
  card_name satellite_version total_power_avail fan_presence config_mode : CardInfoKey
  new_mac_scheme cage_type0 cage_type1 cage_type2 cage_type3 : CardInfoKey

pub data TotalPowerAvail : Type 0 where
  power_75w power_150w power_225w power_300w : TotalPowerAvail

pub data ConfigMode : Type 0 where
  slave_serial_x1 slave_select_map_x8 slave_map_x16 slave_select_map_x32 : ConfigMode
  jtag_boudary_scan_x1 master_spi_x1 master_spi_x2 master_spi_x4 master_spi_x8 : ConfigMode
  master_spi_x16 master_serial_x1 master_select_map_x8 master_select_map_x16 : ConfigMode

pub data CageType : Type 0 where
  qsfp dsfp sfp : CageType

pub data CardInfoItemParseError : Type 0 where
  incomplete_input incorrect_length non_null_terminator : CardInfoItemParseError
  -- a `TryFromPrimitiveError`, with the number that is no code
  bad_card_info_key bad_total_power_avail bad_config_mode bad_cage_type : ℕ → CardInfoItemParseError

-- `repr(u8)`
unfoldable pub card_info_key_code : CardInfoKey → ℕ
card_info_key_code serial_number = 0x21
card_info_key_code mac_address0 = 0x22
card_info_key_code mac_address1 = 0x23
card_info_key_code mac_address2 = 0x24
card_info_key_code mac_address3 = 0x25
card_info_key_code card_rev = 0x26
card_info_key_code card_name = 0x27
card_info_key_code satellite_version = 0x28
card_info_key_code total_power_avail = 0x29
card_info_key_code fan_presence = 0x2a
card_info_key_code config_mode = 0x2b
card_info_key_code new_mac_scheme = 0x4b
card_info_key_code cage_type0 = 0x50
card_info_key_code cage_type1 = 0x51
card_info_key_code cage_type2 = 0x52
card_info_key_code cage_type3 = 0x53

unfoldable pub total_power_avail_code : TotalPowerAvail → ℕ
total_power_avail_code power_75w = 0
total_power_avail_code power_150w = 1
total_power_avail_code power_225w = 2
total_power_avail_code power_300w = 3

unfoldable pub config_mode_code : ConfigMode → ℕ
config_mode_code slave_serial_x1 = 0
config_mode_code slave_select_map_x8 = 1
config_mode_code slave_map_x16 = 2
config_mode_code slave_select_map_x32 = 3
config_mode_code jtag_boudary_scan_x1 = 4
config_mode_code master_spi_x1 = 5
config_mode_code master_spi_x2 = 6
config_mode_code master_spi_x4 = 7
config_mode_code master_spi_x8 = 8
config_mode_code master_spi_x16 = 9
config_mode_code master_serial_x1 = 10
config_mode_code master_select_map_x8 = 11
config_mode_code master_select_map_x16 = 12

unfoldable pub cage_type_code : CageType → ℕ
cage_type_code qsfp = 0
cage_type_code dsfp = 1
cage_type_code sfp = 2

-- `CardInfoKey::try_from_primitive`
unfoldable pub key_try_from : ℕ → Outcome CardInfoItemParseError CardInfoKey
key_try_from b =
    if b == 0x21
    then ok serial_number
    else if b == 0x22
    then ok mac_address0
    else if b == 0x23
    then ok mac_address1
    else if b == 0x24
    then ok mac_address2
    else if b == 0x25
    then ok mac_address3
    else if b == 0x26
    then ok card_rev
    else if b == 0x27
    then ok card_name
    else if b == 0x28
    then ok satellite_version
    else if b == 0x29
    then ok total_power_avail
    else if b == 0x2a
    then ok fan_presence
    else if b == 0x2b
    then ok config_mode
    else if b == 0x4b
    then ok new_mac_scheme
    else if b == 0x50
    then ok cage_type0
    else if b == 0x51
    then ok cage_type1
    else if b == 0x52
    then ok cage_type2
    else if b == 0x53
    then ok cage_type3
    else err (bad_card_info_key b)

-- `TotalPowerAvail::try_from_primitive`
unfoldable pub power_try_from : ℕ → Outcome CardInfoItemParseError TotalPowerAvail
power_try_from b =
    if b == 0
    then ok power_75w
    else if b == 1
    then ok power_150w
    else if b == 2
    then ok power_225w
    else if b == 3
    then ok power_300w
    else err (bad_total_power_avail b)

-- `ConfigMode::try_from_primitive`
unfoldable pub mode_try_from : ℕ → Outcome CardInfoItemParseError ConfigMode
mode_try_from b =
    if b == 0
    then ok slave_serial_x1
    else if b == 1
    then ok slave_select_map_x8
    else if b == 2
    then ok slave_map_x16
    else if b == 3
    then ok slave_select_map_x32
    else if b == 4
    then ok jtag_boudary_scan_x1
    else if b == 5
    then ok master_spi_x1
    else if b == 6
    then ok master_spi_x2
    else if b == 7
    then ok master_spi_x4
    else if b == 8
    then ok master_spi_x8
    else if b == 9
    then ok master_spi_x16
    else if b == 10
    then ok master_serial_x1
    else if b == 11
    then ok master_select_map_x8
    else if b == 12
    then ok master_select_map_x16
    else err (bad_config_mode b)

-- `CageType::try_from_primitive`
unfoldable pub cage_try_from : ℕ → Outcome CardInfoItemParseError CageType
cage_try_from b =
    if b == 0
    then ok qsfp
    else if b == 1
    then ok dsfp
    else if b == 2
    then ok sfp
    else err (bad_cage_type b)
