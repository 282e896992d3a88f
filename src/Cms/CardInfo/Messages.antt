-- ===== src/Cms/CardInfo/Messages.antt =====
-- The format of the messages that `CardInfo::try_from` of sw/rust/warpshell/src/cores/cms.rs reads,
-- stated without positions, and its loop over one. A message is a sequence of item forms, and ends
-- where at most two bytes are left.
pub mod Verdict
use mathlib.Core.List.{append-nil, append_assoc}
use warpshell.Base.{
  zero, refl, inl, inr, ◌⊎◌, ◌↔◌, subst, Bool-cases, ltb, leb, ltb→le, min, length-take, drop,
  length-drop, take-append-drop, ℕ, suc, ◌+◌, ◌≤◌, ◌<◌, List, [], ◌∷◌, ◌++◌, ◌≡◌, sym, ap, ap₂, ◌∙◌,
  arith, length, take, length-append, take-append_length,
}
use warpshell.Outcome.{Outcome, ok, err, panic, Outcome-cases}
use warpshell.Cms.CardInfo.{
  CardInfoParseError, card_info_item, item_length_out_of_bounds, ◌>>=◌, converted, parse_items,
  card_info_try_from,
}
use warpshell.Cms.CardInfo.Walk.{next_of, parse_items_end, parse_items_more}
use warpshell.Cms.CardInfo.Item.Calm.{item_try_from-ne-panic}
use warpshell.Cms.CardInfo.Item.{CardInfoItem, item_try_from}
use warpshell.Cms.CardInfo.Codec.{Encodes, ValueOf-pos}
use warpshell.Cms.CardInfo.Codec.Items.{item_try_from_iff}

-- `r` is a message of `items`.
pub data Message : List ℕ → List CardInfoItem → Type 0 where
  stop : {r : List ℕ} → length r ≤ 2 → Message r []
  item :
      {r rest : List ℕ} {items : List CardInfoItem} (bytes : List ℕ) (i : CardInfoItem)
      → Encodes i bytes
      → r ≡ bytes ++ rest
      → Message rest items
      → Message r (i ∷ items)

-- After some items comes one whose length byte promises exactly one byte more than are left.
pub data CutShort : List ℕ → Type 0 where
  here :
      {r : List ℕ} (k l x : ℕ) (more : List ℕ)
      → r ≡ k ∷ l ∷ x ∷ more
      → l + 2 ≡ length r + 1
      → CutShort r
  later :
      {r rest : List ℕ} (bytes : List ℕ) (i : CardInfoItem)
      → Encodes i bytes
      → r ≡ bytes ++ rest
      → CutShort rest
      → CutShort r

frame_shape :
    (key : ℕ) (value rest bytes : List ℕ)
    → 0 < length value
    → bytes ≡ key ∷ length value ∷ value
    → (k : ℕ) × (l : ℕ) × (x : ℕ) × (more : List ℕ) × (bytes ++ rest ≡ k ∷ l ∷ x ∷ more)
      × (l + 2 ≡ length bytes)
frame_shape key [] rest bytes h e = absurd (omega arith)
frame_shape key (x ∷ value) rest bytes h e =
    (key, suc (length value), x, value ++ rest, ap (λ b. b ++ rest) e, omega (arith, ap length e))

module _ (i : CardInfoItem) (bytes rest : List ℕ) (h : Encodes i bytes) where
  -- A value has at least one byte, so an item has at least three.
  pub Encodes-shape :
      (k : ℕ) × (l : ℕ) × (x : ℕ) × (more : List ℕ) × (bytes ++ rest ≡ k ∷ l ∷ x ∷ more)
      × (l + 2 ≡ length bytes)
  Encodes-shape = frame_shape _ h.value rest bytes (ValueOf-pos i h.value h.valued) h.framed

  next_of-Encodes :
      (l : ℕ) → l + 2 ≡ length bytes → next_of l (bytes ++ rest) ≡ ok (i, length bytes)
  unfolding converted
  next_of-Encodes l e =
      let cut : take (l + 2) (bytes ++ rest) ≡ bytes =
        ap (λ n. take n (bytes ++ rest)) e ∙ take-append_length bytes rest in
      let parsed : item_try_from bytes ≡ ok i =
        (item_try_from_iff bytes i).1 (bytes, [], h, sym (append-nil bytes)) in
      ground (arith, length-append bytes rest, cut, parsed)

  -- One round of the loop over an item.
  pub advance :
      (fuel : ℕ) (pre : List ℕ) (items : List CardInfoItem)
      → parse_items (suc fuel) (pre ++ (bytes ++ rest)) items (length pre)
        ≡ parse_items fuel ((pre ++ bytes) ++ rest) (items ++ (i ∷ [])) (length (pre ++ bytes))
  advance fuel pre items =
      let (k, l, x, more, shape, size) = Encodes-shape in
      let rest_of = λ (input : List ℕ) (parsed : CardInfoItem × ℕ).
        parse_items fuel input (items ++ (parsed.0 ∷ [])) (length pre + parsed.1) in
      let parsed : next_of l (k ∷ l ∷ x ∷ more) ≡ ok (i, length bytes) =
        ap (next_of l) (sym shape) ∙ next_of-Encodes l size in
      ap (λ r. parse_items (suc fuel) (pre ++ r) items (length pre)) shape
      ∙ parse_items_more fuel pre items k l x more
      ∙ ap (λ o. o >>= rest_of (pre ++ (k ∷ l ∷ x ∷ more))) parsed
      ∙ ap₂ (λ input n. parse_items fuel input (items ++ (i ∷ [])) n)
          (ap (λ r. pre ++ r) (sym shape) ∙ sym (append_assoc pre bytes rest))
          (sym (length-append pre bytes))

pub parse_items-Message :
    {r : List ℕ} {its : List CardInfoItem}
    → Message r its
    → (fuel : ℕ) (pre : List ℕ) (items : List CardInfoItem) → length r ≤ fuel
    → parse_items fuel (pre ++ r) items (length pre) ≡ ok (items ++ its)
parse_items-Message (stop {r} few) fuel pre items h =
    parse_items_end fuel pre items r few ∙ ap ok (sym (append-nil items))
parse_items-Message (item {r} {rest} {items = its} bytes i e w m) zero pre items h =
    let (k, l, x, more, shape, size) = Encodes-shape i bytes rest e in
    absurd (omega (arith, ap length w, ap length shape))
parse_items-Message (item {r} {rest} {items = its} bytes i e w m) (suc fuel) pre items h =
    let (k, l, x, more, shape, size) = Encodes-shape i bytes rest e in
    let room : length rest ≤ fuel = omega (arith, ap length w, length-append bytes rest, size) in
    ap (λ b. parse_items (suc fuel) (pre ++ b) items (length pre)) w
    ∙ advance i bytes rest e fuel pre items
    ∙ parse_items-Message m fuel (pre ++ bytes) (items ++ (i ∷ [])) room
    ∙ ap ok (append_assoc items (i ∷ []) its)

pub parse_items-CutShort :
    {r : List ℕ}
    → CutShort r
    → (fuel : ℕ) (pre : List ℕ) (items : List CardInfoItem) → length r ≤ fuel
    → parse_items fuel (pre ++ r) items (length pre) ≡ panic
parse_items-CutShort (here {r} k l x more w s) zero pre items h =
    absurd (omega (arith, ap length w))
parse_items-CutShort (here {r} k l x more w s) (suc fuel) pre items h =
    let short : next_of l (k ∷ l ∷ x ∷ more) ≡ panic = ground (arith, ap length w, s) in
    ap (λ b. parse_items (suc fuel) (pre ++ b) items (length pre)) w
    ∙ parse_items_more fuel pre items k l x more
    ∙ ap
        (λ o. o >>= λ parsed.
          parse_items fuel (pre ++ (k ∷ l ∷ x ∷ more)) (items ++ (parsed.0 ∷ []))
            (length pre + parsed.1))
        short
parse_items-CutShort (later {r} {rest} bytes i e w m) zero pre items h =
    let (k, l, x, more, shape, size) = Encodes-shape i bytes rest e in
    absurd (omega (arith, ap length w, ap length shape))
parse_items-CutShort (later {r} {rest} bytes i e w m) (suc fuel) pre items h =
    let (k, l, x, more, shape, size) = Encodes-shape i bytes rest e in
    let room : length rest ≤ fuel = omega (arith, ap length w, length-append bytes rest, size) in
    ap (λ b. parse_items (suc fuel) (pre ++ b) items (length pre)) w
    ∙ advance i bytes rest e fuel pre items
    ∙ parse_items-CutShort m fuel (pre ++ bytes) (items ++ (i ∷ [])) room
