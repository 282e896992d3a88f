-- ===== src/Cms/CardInfo/Codec/Sound.antt =====
-- `CardInfoItem::try_from` of sw/rust/warpshell/src/cores/cms.rs: what a parse has taken.
use warpshell.Base.{ℕ, List, [], ◌∷◌, ◌++◌, ◌≡◌, refl, sym, ap, subst, ◌∙◌, arith, length}
use warpshell.Outcome.{Outcome, ok}
use warpshell.Cms.CardInfo.Item.{
  CardInfoItem, serial_number_item, mac_address0_item, mac_address1_item, mac_address2_item,
  mac_address3_item, card_rev_item, card_name_item, satellite_version_item, total_power_avail_item,
  fan_presence_item, config_mode_item, cage_type0_item, cage_type1_item, cage_type2_item,
  cage_type3_item, parse_string, parse_old_mac, parse_byte, parse_new_mac, parse_value,
}
use warpshell.Cms.CardInfo.Item.Key.{
  CardInfoKey, serial_number, mac_address0, mac_address1, mac_address2, mac_address3, card_rev,
  card_name, satellite_version, total_power_avail, fan_presence, config_mode, new_mac_scheme,
  cage_type0, cage_type1, cage_type2, cage_type3, total_power_avail_code, power_try_from,
  config_mode_code, mode_try_from, cage_type_code, cage_try_from, CardInfoItemParseError,
}
use warpshell.Cms.CardInfo.Item.Codes.{power_sound, mode_sound, cage_sound}
use warpshell.Cms.CardInfo.Codec.Steps.{
  parse_string_sound, parse_old_mac_fails, parse_byte_sound, parse_new_mac_sound,
}
use warpshell.Cms.CardInfo.Codec.{item_key, ValueOf}

-- A parse of `input` to `item` took a value of `item` from its front.
pub record Taken (key : CardInfoKey) (len : ℕ) (input : List ℕ) (item : CardInfoItem)
    (rest : List ℕ) : Type 0 where
  pub same_key : item_key item ≡ key
  pub value : List ℕ
  pub valued : ValueOf item value
  pub taken : input ≡ value ++ rest
  pub sized : len ≡ length value

module _ (len : ℕ) (input rest : List ℕ) (i : CardInfoItem) where
  Taken-string :
      (item : List ℕ → CardInfoItem) (key : CardInfoKey)
      → ((v : List ℕ) → item_key (item v) ≡ key)
      → ((v : List ℕ) → ValueOf (item v) (v ++ (0 ∷ [])))
      → parse_string item len input ≡ ok (i, rest)
      → Taken key len input i rest
  Taken-string item key k f h =
      let (v, e, t, l) = parse_string_sound item len input rest i h in
      subst (λ j. Taken key len input j rest) (sym e)
        (record { same_key = k v; value = v ++ (0 ∷ []); valued = f v; taken = t; sized = l })

  Taken-byte :
      {A : Type 0} (convert : ℕ → Outcome CardInfoItemParseError A) (code : A → ℕ)
      (item : A → CardInfoItem) (key : CardInfoKey)
      → ((b : ℕ) (a : A) → convert b ≡ ok a → b ≡ code a)
      → ((a : A) → item_key (item a) ≡ key)
      → ((a : A) → ValueOf (item a) (code a ∷ []))
      → parse_byte convert item len input ≡ ok (i, rest)
      → Taken key len input i rest
  Taken-byte convert code item key sound k f h =
      let (b, a, c, e, t, l) = parse_byte_sound convert item len input rest i h in
      subst (λ j. Taken key len input j rest) (sym e)
        (record {
          same_key = k a;
          value = code a ∷ [];
          valued = f a;
          taken = t ∙ ap (λ x. x ∷ rest) (sound b a c);
          sized = l;
        })

  Taken-new_mac : parse_new_mac len input ≡ ok (i, rest) → Taken new_mac_scheme len input i rest
  Taken-new_mac h =
      let (n, reserved, mac, e, t, six, l) = parse_new_mac_sound len input rest i h in
      subst (λ j. Taken new_mac_scheme len input j rest) (sym e)
        (record {
          same_key = refl;
          value = n ∷ reserved ∷ mac;
          valued = (reserved, refl, six);
          taken = t;
          sized = omega arith;
        })

  Taken-old_mac :
      (item : List ℕ → CardInfoItem) (key : CardInfoKey)
      → parse_old_mac item len input ≡ ok (i, rest)
      → Taken key len input i rest
  Taken-old_mac item key h = absurd (parse_old_mac_fails item len input rest i h)

  pub parse_value_sound :
      (key : CardInfoKey) → parse_value key len input ≡ ok (i, rest) → Taken key len input i rest
  unfolding parse_value
  parse_value_sound serial_number h = Taken-string serial_number_item _ (λ v. refl) (λ v. refl) h
  parse_value_sound mac_address0 h = Taken-old_mac mac_address0_item _ h
  parse_value_sound mac_address1 h = Taken-old_mac mac_address1_item _ h
  parse_value_sound mac_address2 h = Taken-old_mac mac_address2_item _ h
  parse_value_sound mac_address3 h = Taken-old_mac mac_address3_item _ h
  parse_value_sound card_rev h = Taken-string card_rev_item _ (λ v. refl) (λ v. refl) h
  parse_value_sound card_name h = Taken-string card_name_item _ (λ v. refl) (λ v. refl) h
  parse_value_sound satellite_version h =
      Taken-string satellite_version_item _ (λ v. refl) (λ v. refl) h
  parse_value_sound total_power_avail h =
      Taken-byte power_try_from total_power_avail_code total_power_avail_item _ power_sound
        (λ a. refl) (λ a. refl) h
  parse_value_sound fan_presence h =
      Taken-byte ok (λ f. f) fan_presence_item _ (λ b a e. ground arith) (λ a. refl) (λ a. refl) h
  parse_value_sound config_mode h =
      Taken-byte mode_try_from config_mode_code config_mode_item _ mode_sound (λ a. refl)
        (λ a. refl) h
  parse_value_sound new_mac_scheme h = Taken-new_mac h
  parse_value_sound cage_type0 h =
      Taken-byte cage_try_from cage_type_code cage_type0_item _ cage_sound (λ a. refl) (λ a. refl) h
  parse_value_sound cage_type1 h =
      Taken-byte cage_try_from cage_type_code cage_type1_item _ cage_sound (λ a. refl) (λ a. refl) h
  parse_value_sound cage_type2 h =
      Taken-byte cage_try_from cage_type_code cage_type2_item _ cage_sound (λ a. refl) (λ a. refl) h
  parse_value_sound cage_type3 h =
      Taken-byte cage_try_from cage_type_code cage_type3_item _ cage_sound (λ a. refl) (λ a. refl) h
