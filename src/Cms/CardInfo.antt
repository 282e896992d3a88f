-- ===== src/Cms/CardInfo.antt =====
-- sw/rust/warpshell/src/cores/cms.rs: the card information, its items and their parsing from the
-- bytes of a mailbox message (`TryFrom<&[u8]>` for `CardInfoItem` and for `CardInfo`).
pub mod Item
pub mod Text
pub mod Codec
pub mod Walk
pub mod Messages
pub mod OldMac
pub mod Fits
use warpshell.Base.{
  ℕ, zero, suc, ◌+◌, ◌-◌, List, [], ◌∷◌, ◌++◌, Bool, true, false, Option, none, some, ltb, leb,
  ◌&&◌, if◌then◌else◌, length, get_elem?, take, drop,
}
use warpshell.Outcome.{Outcome, ok, err, panic}
use Item.{CardInfoItem, item_try_from}
use Item.Key.{CardInfoItemParseError}

pub data CardInfoParseError : Type 0 where
  card_info_item : CardInfoItemParseError → CardInfoParseError
  item_length_out_of_bounds : CardInfoParseError

-- `&input[start..end]`
unfoldable pub slice : {X : Type 0} → List ℕ → ℕ → ℕ → Outcome X (List ℕ)
slice input start end =
    if leb start end && leb end (length input)
    then ok (take (end - start) (drop start input))
    else panic

abbrev pub or_panic : {X : Type 0} → Option ℕ → Outcome X ℕ
or_panic (some b) = ok b
or_panic none = panic

-- `input[i]`
unfoldable pub index : {X : Type 0} → List ℕ → ℕ → Outcome X ℕ
index input i = or_panic (get_elem? input i)

abbrev pub ◌>>=◌ : {X A B : Type 0} → Outcome X A → (A → Outcome X B) → Outcome X B
ok a >>= f = f a
err e >>= f = err e
panic >>= f = panic

infixl 5 ◌>>=◌
-- `?` on the parsing of an item
unfoldable pub converted :
    Outcome CardInfoItemParseError CardInfoItem → Outcome CardInfoParseError CardInfoItem
converted (ok item) = ok item
converted (err e) = err (card_info_item e)
converted panic = panic

-- The body of the loop up to the `push`: the next item, and `to_parse_len`.
unfoldable pub next_item : List ℕ → ℕ → Outcome CardInfoParseError (CardInfoItem × ℕ)
unfolding slice index converted
next_item input parsed_len = do
  item_len ← index input (parsed_len + 1)
  let to_parse_len = item_len + 2
  let next_item_pos = parsed_len + to_parse_len
  if ltb (length input) (next_item_pos - 1) then err item_length_out_of_bounds else do
    bytes ← slice input parsed_len next_item_pos
    item ← converted (item_try_from bytes)
    ok (item, to_parse_len)

-- The `while` loop. Each round moves `parsed_len` on by at least 2, so the length of the input is
-- fuel enough, and the `panic` of a run without fuel is never reached.
unfoldable pub parse_items :
    ℕ → List ℕ → List CardInfoItem → ℕ → Outcome CardInfoParseError (List CardInfoItem)
unfolding next_item
parse_items zero input items parsed_len =
    if ltb (parsed_len + 2) (length input) then panic else ok items
parse_items (suc fuel) input items parsed_len = elim (ltb (parsed_len + 2) (length input)) [
  | false ↦ ok items
  | true ↦ next_item input parsed_len >>= λ parsed.
      parse_items fuel input (items ++ (parsed.0 ∷ [])) (parsed_len + parsed.1)
]

-- `CardInfo::try_from`
unfoldable pub card_info_try_from : List ℕ → Outcome CardInfoParseError (List CardInfoItem)
unfolding parse_items
card_info_try_from input = parse_items (length input) input [] 0
