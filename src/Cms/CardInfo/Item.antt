-- ===== src/Cms/CardInfo/Item.antt =====
-- `CardInfoItem` of sw/rust/warpshell/src/cores/cms.rs, its parts and its parser.
pub mod Key
pub mod Codes
pub mod Calm
use warpshell.Base.{ℕ, zero, suc, ◌-◌, List, [], ◌∷◌, ◌==◌, if◌then◌else◌, length}
use warpshell.Outcome.{Outcome, ok, err, panic}
use Key.{
  CardInfoKey, serial_number, mac_address0, mac_address1, mac_address2, mac_address3, card_rev,
  card_name, satellite_version, total_power_avail, fan_presence, config_mode, new_mac_scheme,
  cage_type0, cage_type1, cage_type2, cage_type3, key_try_from, TotalPowerAvail, power_try_from,
  ConfigMode, mode_try_from, CageType, cage_try_from, CardInfoItemParseError, incomplete_input,
  incorrect_length, non_null_terminator,
}

-- `ByteString`, `OldMacAddress` (16 bytes) and `MacAddress` (6 bytes) are lists of bytes here.
pub data CardInfoItem : Type 0 where
  serial_number_item card_rev_item card_name_item : List ℕ → CardInfoItem
  satellite_version_item : List ℕ → CardInfoItem
  mac_address0_item mac_address1_item mac_address2_item : List ℕ → CardInfoItem
  mac_address3_item : List ℕ → CardInfoItem
  total_power_avail_item : TotalPowerAvail → CardInfoItem
  fan_presence_item : ℕ → CardInfoItem
  config_mode_item : ConfigMode → CardInfoItem
  new_mac_scheme_item : ℕ → List ℕ → CardInfoItem
  cage_type0_item cage_type1_item cage_type2_item cage_type3_item : CageType → CardInfoItem

-- A computation that takes bytes from the iterator over the input.
abbrev pub Parser : Type 0 → Type 0
Parser A = List ℕ → Outcome CardInfoItemParseError (A × List ℕ)

infixl 5 ◌>>=◌ ◌>>◌
abbrev pub ◌>>=◌ : {A B : Type 0} → Parser A → (A → Parser B) → Parser B
◌>>=◌ m f input = elim (m input) [ ok (a, rest) ↦ f a rest | err e ↦ err e | panic ↦ panic ]

abbrev pub ◌>>◌ : {A B : Type 0} → Parser A → Parser B → Parser B
m >> n = m >>= λ _. n

abbrev pub pure : {A : Type 0} → A → Parser A
pure a input = ok (a, input)

abbrev pub fail : {A : Type 0} → CardInfoItemParseError → Parser A
fail e input = err e

abbrev lift : {A : Type 0} → Outcome CardInfoItemParseError A → Parser A
lift (ok a) input = ok (a, input)
lift (err e) input = err e
lift panic input = panic

unfoldable pub next : Parser ℕ
next [] = err incomplete_input
next (b ∷ rest) = ok (b, rest)

-- `for _ in 0..n { v.push(*next()?); }`
unfoldable pub next_n : ℕ → Parser (List ℕ)
next_n zero = pure []
next_n (suc n) = do b ← next; v ← next_n n; pure (b ∷ v)

-- `if *next()? != 0 { return Err(..) }`, with the bytes read before
unfoldable pub expect_null : List ℕ → Parser (List ℕ)
unfolding next
expect_null v = do terminator ← next; if terminator == 0 then pure v else fail non_null_terminator

-- The bytes before the terminator, which has to be null.
unfoldable pub terminated : ℕ → Parser (List ℕ)
unfolding next_n expect_null
terminated n = do v ← next_n n; expect_null v

-- The arms for `SerialNumber`, `CardRev`, `CardName` and `SatelliteVersion`
unfoldable pub parse_string : (List ℕ → CardInfoItem) → ℕ → Parser CardInfoItem
unfolding terminated
parse_string item len =
    if len == 0 then fail incorrect_length else do v ← terminated (len - 1); pure (item v)

-- The arms for `MacAddress0` to `MacAddress3`, with the `try_into` to an array of 16 bytes
unfoldable pub parse_old_mac : (List ℕ → CardInfoItem) → ℕ → Parser CardInfoItem
unfolding terminated
parse_old_mac item len =
    if len == 18
    then (do
      v ← terminated (len - 1)
      if length v == 16 then pure (item v) else fail incorrect_length)
    else fail incorrect_length

-- The arms of one byte
unfoldable pub parse_byte :
    {A : Type 0}
    → (ℕ → Outcome CardInfoItemParseError A)
    → (A → CardInfoItem)
    → ℕ
    → Parser CardInfoItem
unfolding next
parse_byte convert item len =
    if len == 1 then (do b ← next; a ← lift (convert b); pure (item a)) else fail incorrect_length

-- The arms for `CageType0` to `CageType3`
abbrev parse_cage : (CageType → CardInfoItem) → ℕ → Parser CardInfoItem
parse_cage = parse_byte cage_try_from

-- The arm for `NewMacScheme`, which skips a reserved byte
unfoldable pub parse_new_mac : ℕ → Parser CardInfoItem
unfolding next next_n
parse_new_mac len =
    if len == 8
    then (do
      num_addresses ← next
      next
      v ← next_n 6
      if length v == 6 then pure (new_mac_scheme_item num_addresses v) else fail incorrect_length)
    else fail incorrect_length

-- `match key`
unfoldable pub parse_value : CardInfoKey → ℕ → Parser CardInfoItem
unfolding parse_string parse_old_mac parse_byte parse_new_mac power_try_from mode_try_from
    cage_try_from
parse_value serial_number = parse_string serial_number_item
parse_value mac_address0 = parse_old_mac mac_address0_item
parse_value mac_address1 = parse_old_mac mac_address1_item
parse_value mac_address2 = parse_old_mac mac_address2_item
parse_value mac_address3 = parse_old_mac mac_address3_item
parse_value card_rev = parse_string card_rev_item
parse_value card_name = parse_string card_name_item
parse_value satellite_version = parse_string satellite_version_item
parse_value total_power_avail = parse_byte power_try_from total_power_avail_item
parse_value fan_presence = parse_byte ok fan_presence_item
parse_value config_mode = parse_byte mode_try_from config_mode_item
parse_value new_mac_scheme = parse_new_mac
parse_value cage_type0 = parse_cage cage_type0_item
parse_value cage_type1 = parse_cage cage_type1_item
parse_value cage_type2 = parse_cage cage_type2_item
parse_value cage_type3 = parse_cage cage_type3_item

abbrev result_of :
    {A : Type 0} → Outcome CardInfoItemParseError (A × List ℕ) → Outcome CardInfoItemParseError A
result_of (ok (a, rest)) = ok a
result_of (err e) = err e
result_of panic = panic

-- `CardInfoItem::try_from`; bytes behind the item are not looked at.
unfoldable pub item_try_from : List ℕ → Outcome CardInfoItemParseError CardInfoItem
unfolding next key_try_from parse_value
item_try_from input =
    result_of ((do b ← next; key ← lift (key_try_from b); len ← next; parse_value key len) input)
