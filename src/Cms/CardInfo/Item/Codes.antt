-- ===== src/Cms/CardInfo/Item/Codes.antt =====
-- The codes of the enumerations in sw/rust/warpshell/src/cores/cms.rs and their parsing.
use warpshell.Base.{ℕ, ◌≡◌, refl, arith}
use warpshell.Outcome.{ok}
use warpshell.Cms.CardInfo.Item.Key.{
  CardInfoKey, serial_number, card_info_key_code, key_try_from, TotalPowerAvail, power_75w,
  total_power_avail_code, power_try_from, ConfigMode, slave_serial_x1, config_mode_code,
  mode_try_from, CageType, qsfp, cage_type_code, cage_try_from,
}

pub key_sound : (b : ℕ) (k : CardInfoKey) → key_try_from b ≡ ok k → b ≡ card_info_key_code k
unfolding key_try_from card_info_key_code
key_sound b serial_number h = ground arith
key_sound b _ h = ground arith

pub key_complete : (k : CardInfoKey) → key_try_from (card_info_key_code k) ≡ ok k
unfolding key_try_from card_info_key_code
key_complete serial_number = refl
key_complete _ = refl

pub power_sound :
    (b : ℕ) (p : TotalPowerAvail) → power_try_from b ≡ ok p → b ≡ total_power_avail_code p
unfolding power_try_from total_power_avail_code
power_sound b power_75w h = ground arith
power_sound b _ h = ground arith

pub power_complete : (p : TotalPowerAvail) → power_try_from (total_power_avail_code p) ≡ ok p
unfolding power_try_from total_power_avail_code
power_complete power_75w = refl
power_complete _ = refl

pub mode_sound : (b : ℕ) (m : ConfigMode) → mode_try_from b ≡ ok m → b ≡ config_mode_code m
unfolding mode_try_from config_mode_code
mode_sound b slave_serial_x1 h = ground arith
mode_sound b _ h = ground arith

pub mode_complete : (m : ConfigMode) → mode_try_from (config_mode_code m) ≡ ok m
unfolding mode_try_from config_mode_code
mode_complete slave_serial_x1 = refl
mode_complete _ = refl

pub cage_sound : (b : ℕ) (t : CageType) → cage_try_from b ≡ ok t → b ≡ cage_type_code t
unfolding cage_try_from cage_type_code
cage_sound b qsfp h = ground arith
cage_sound b _ h = ground arith

pub cage_complete : (t : CageType) → cage_try_from (cage_type_code t) ≡ ok t
unfolding cage_try_from cage_type_code
cage_complete qsfp = refl
cage_complete _ = refl
