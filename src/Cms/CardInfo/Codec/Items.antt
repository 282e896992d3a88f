-- ===== src/Cms/CardInfo/Codec/Items.antt =====
-- `CardInfoItem::try_from` of sw/rust/warpshell/src/cores/cms.rs against the byte form of items.
use warpshell.Base.{ℕ, List, [], ◌∷◌, ◌++◌, ◌≡◌, sym, ap, ap₂, inl, inr, ◌∙◌, ◌↔◌, arith}
use warpshell.Outcome.{ok, Outcome-cases}
use warpshell.Cms.CardInfo.Item.{CardInfoItem, parse_value, next, item_try_from}
use warpshell.Cms.CardInfo.Item.Key.{card_info_key_code, key_try_from}
use warpshell.Cms.CardInfo.Item.Codes.{key_sound}
use warpshell.Cms.CardInfo.Codec.Sound.{parse_value_sound}
use warpshell.Cms.CardInfo.Codec.Complete.{item_complete}
use warpshell.Cms.CardInfo.Codec.{Encodes}

item_sound :
    (input : List ℕ) (i : CardInfoItem)
    → item_try_from input ≡ ok i
    → (bytes : List ℕ) × (rest : List ℕ) × Encodes i bytes × (input ≡ bytes ++ rest)
unfolding item_try_from next
item_sound [] i h = absurd (ground arith)
item_sound (b ∷ []) i h = elim (Outcome-cases (key_try_from b)) [
  | inl (k, e) ↦ absurd (ground arith)
  | inr (inl (x, e)) ↦ absurd (ground arith)
  | inr (inr e) ↦ absurd (ground arith)
]
item_sound (b ∷ len ∷ input) i h = elim (Outcome-cases (key_try_from b)) [
  | inl (k, e) ↦ elim (Outcome-cases (parse_value k len input)) [
    | inl ((j, rest), p) ↦
        let same : j ≡ i = ground arith in
        let t = parse_value_sound len input rest i k (p ∙ ap (λ z. ok (z, rest)) same) in
        (
          b ∷ len ∷ t.value,
          rest,
          record {
            value = t.value;
            framed =
                ap₂ (λ (x y : ℕ). x ∷ y ∷ t.value)
                  (key_sound b k e ∙ ap card_info_key_code (sym t.same_key)) t.sized;
            valued = t.valued;
          },
          ap (λ r. b ∷ len ∷ r) t.taken,
        )
    | inr (inl (x, p)) ↦ absurd (ground arith)
    | inr (inr p) ↦ absurd (ground arith)
  ]
  | inr (inl (x, e)) ↦ absurd (ground arith)
  | inr (inr e) ↦ absurd (ground arith)
]

-- The item parser accepts an input with an item exactly if the input starts with a form of that
-- item: the key, the length of the value and a value for it. What follows is not looked at.
pub item_try_from_iff :
    (input : List ℕ) (i : CardInfoItem)
    → (item_try_from input ≡ ok i)
      ↔ ((bytes : List ℕ) × (rest : List ℕ) × Encodes i bytes × (input ≡ bytes ++ rest))
item_try_from_iff input i =
    (item_sound input i, λ (bytes, rest, h, e). rw e (item_complete i bytes rest h))
