-- ===== src/Cms/CardInfo/Messages/Verdict.antt =====
-- What `CardInfo::try_from` of sw/rust/warpshell/src/cores/cms.rs makes of every input.
use mathlib.Core.List.{append-nil, append_assoc}
use warpshell.Base.{
  zero, refl, inl, inr, ◌⊎◌, ◌↔◌, subst, Bool-cases, ltb, leb, length-take, drop, length-drop,
  take-append-drop, ℕ, suc, ◌+◌, ◌≤◌, List, [], ◌∷◌, ◌++◌, ◌≡◌, sym, ap, ◌∙◌, arith, length, take,
  length-append,
}
use warpshell.Outcome.{Outcome, ok, err, panic, Outcome-cases}
use warpshell.Cms.CardInfo.{
  CardInfoParseError, card_info_item, item_length_out_of_bounds, ◌>>=◌, converted, parse_items,
  card_info_try_from,
}
use warpshell.Cms.CardInfo.Walk.{next_of, parse_items_end, parse_items_more}
use warpshell.Cms.CardInfo.Item.Calm.{item_try_from-ne-panic}
use warpshell.Cms.CardInfo.Item.{CardInfoItem, item_try_from}
use warpshell.Cms.CardInfo.Codec.{Encodes}
use warpshell.Cms.CardInfo.Codec.Items.{item_try_from_iff}
use warpshell.Cms.CardInfo.Messages.{
  Message, stop, item, CutShort, here, later, advance, parse_items-Message, parse_items-CutShort,
}

-- The three ways in which reading `r` can go, with `items` read before it.
abbrev Verdict :
    List ℕ → List CardInfoItem → Outcome CardInfoParseError (List CardInfoItem) → Type 0
Verdict r items o =
    ((its : List CardInfoItem) × Message r its × (o ≡ ok (items ++ its)))
    ⊎ ((e : CardInfoParseError) × (o ≡ err e))
    ⊎ (CutShort r × (o ≡ panic))

ended :
    (fuel : ℕ) (pre : List ℕ) (items : List CardInfoItem) (r : List ℕ)
    → length r ≤ 2
    → Verdict r items (parse_items fuel (pre ++ r) items (length pre))
ended fuel pre items r few =
    inl ([], stop few, parse_items_end fuel pre items r few ∙ ap ok (sym (append-nil items)))

nil_of_length : (xs : List ℕ) → length xs ≡ 0 → xs ≡ []
nil_of_length [] h = refl
nil_of_length (x ∷ xs) h = absurd (omega arith)

-- An item that parses from a slice of its own length is the whole slice.
whole_slice :
    (k l x : ℕ) (more : List ℕ) (i : CardInfoItem)
    → let r = k ∷ l ∷ x ∷ more in
      l + 2 ≤ length r → item_try_from (take (l + 2) r) ≡ ok i → Encodes i (take (l + 2) r)
whole_slice k l x more i fits p =
    let slice : List ℕ = take (l + 2) (k ∷ l ∷ x ∷ more) in
    let (bytes, rest, e, w) = (item_try_from_iff slice i).0 p in
    let two : l + 2 ≡ suc (suc l) = omega arith in
    let front : k ∷ l ∷ take l (x ∷ more) ≡ bytes ++ rest =
      ap (λ n. take n (k ∷ l ∷ x ∷ more)) (sym two) ∙ w in
    let framed : bytes ++ rest ≡ _ = ap (λ b. b ++ rest) e.framed in
    let same : l ≡ length e.value = cc (front, framed) in
    let none_left : length rest ≡ 0 = omega (
      arith,
      ap length w,
      ap length e.framed,
      length-append bytes rest,
      length-take (l + 2) (k ∷ l ∷ x ∷ more),
      same,
    ) in
    let all : bytes ≡ slice =
      sym (append-nil bytes) ∙ ap (λ r. bytes ++ r) (sym (nil_of_length rest none_left)) ∙ sym w in
    subst (λ b. Encodes i b) all e

module _ {r rest : List ℕ} (bytes : List ℕ) (i : CardInfoItem) (items : List CardInfoItem) where
  Verdict-item :
      {o : Outcome CardInfoParseError (List CardInfoItem)}
      → Encodes i bytes
      → r ≡ bytes ++ rest
      → Verdict rest (items ++ (i ∷ [])) o
      → Verdict r items o
  Verdict-item e w (inl (its, m, p)) =
      inl (i ∷ its, item bytes i e w m, p ∙ ap ok (append_assoc items (i ∷ []) its))
  Verdict-item e w (inr (inl p)) = inr (inl p)
  Verdict-item e w (inr (inr (c, p))) = inr (inr (later bytes i e w c, p))

module _ (fuel : ℕ) (pre : List ℕ) (items : List CardInfoItem) (k l x : ℕ) (more : List ℕ) where
  abbrev left : List ℕ
  left = k ∷ l ∷ x ∷ more

  abbrev onward :
      Outcome CardInfoParseError (CardInfoItem × ℕ) → Outcome CardInfoParseError (List CardInfoItem)
  onward o = o >>= λ parsed.
      parse_items fuel (pre ++ left) (items ++ (parsed.0 ∷ [])) (length pre + parsed.1)

  -- The rounds that end the loop, by the outcome of the next item.
  Verdict-next :
      (o : Outcome CardInfoParseError (CardInfoItem × ℕ))
      → next_of l left ≡ o
      → Verdict left items (onward o)
      → Verdict left items (parse_items (suc fuel) (pre ++ left) items (length pre))
  Verdict-next o e v =
      subst (Verdict left items) (sym (parse_items_more fuel pre items k l x more ∙ ap onward e)) v

  Verdict-slice :
      l + 2 ≤ length left
      → ((i : CardInfoItem)
          → Encodes i (take (l + 2) left)
          → Verdict left items (parse_items (suc fuel) (pre ++ left) items (length pre)))
      → Verdict left items (parse_items (suc fuel) (pre ++ left) items (length pre))
  unfolding converted
  Verdict-slice fits step = elim (Outcome-cases (item_try_from (take (l + 2) left))) [
    | inl (i, p) ↦ step i (whole_slice k l x more i fits p)
    | inr (inl (e, p)) ↦
        Verdict-next (err (card_info_item e)) (ground arith) (inr (inl (card_info_item e, refl)))
    | inr (inr p) ↦ absurd (item_try_from-ne-panic (take (l + 2) left) p)
  ]

  Verdict-more :
      ((i : CardInfoItem)
        → Encodes i (take (l + 2) left)
        → Verdict left items (parse_items (suc fuel) (pre ++ left) items (length pre)))
      → Verdict left items (parse_items (suc fuel) (pre ++ left) items (length pre))
  Verdict-more step = elim (Bool-cases (ltb (length left) (l + 1))) [
    | inl long ↦
        Verdict-next (err item_length_out_of_bounds) (ground arith)
          (inr (inl (item_length_out_of_bounds, refl)))
    | inr bounded ↦ elim (Bool-cases (leb (l + 2) (length left))) [
      | inl fits ↦ Verdict-slice (ground arith) step
      | inr cut ↦
          Verdict-next panic (ground arith) (inr (inr (here k l x more refl (ground arith), refl)))
    ]
  ]

parse_items-Verdict :
    (fuel : ℕ) (pre : List ℕ) (items : List CardInfoItem) (r : List ℕ)
    → length r ≤ fuel
    → Verdict r items (parse_items fuel (pre ++ r) items (length pre))
parse_items-Verdict fuel pre items [] h = ended fuel pre items [] (omega arith)
parse_items-Verdict fuel pre items (k ∷ []) h = ended fuel pre items (k ∷ []) (omega arith)
parse_items-Verdict fuel pre items (k ∷ l ∷ []) h = ended fuel pre items (k ∷ l ∷ []) (omega arith)
parse_items-Verdict zero pre items (k ∷ l ∷ x ∷ more) h = absurd (omega arith)
parse_items-Verdict (suc fuel) pre items (k ∷ l ∷ x ∷ more) h =
    Verdict-more fuel pre items k l x more λ i e.
      let all : List ℕ = k ∷ l ∷ x ∷ more in
      let bytes : List ℕ = take (l + 2) all in
      let rest : List ℕ = drop (l + 2) all in
      let w : all ≡ bytes ++ rest = sym (take-append-drop (l + 2) all) in
      let room : length rest ≤ fuel = omega (arith, length-drop (l + 2) all) in
      let step =
        ap (λ b. parse_items (suc fuel) (pre ++ b) items (length pre)) w
        ∙ advance i bytes rest e fuel pre items in
      subst (Verdict all items) (sym step) (
        Verdict-item bytes i items e w
          (parse_items-Verdict fuel (pre ++ bytes) (items ++ (i ∷ [])) rest room))

card_info_try_from-Verdict : (input : List ℕ) → Verdict input [] (card_info_try_from input)
unfolding card_info_try_from
card_info_try_from-Verdict input = parse_items-Verdict (length input) [] [] input (omega arith)

-- The bytes parse to a list of items exactly if they are a message of those items.
pub card_info_try_from_iff :
    (input : List ℕ) (items : List CardInfoItem)
    → (card_info_try_from input ≡ ok items) ↔ Message input items
unfolding card_info_try_from
card_info_try_from_iff input items = (
  λ p. elim (card_info_try_from-Verdict input) [
    | inl (its, m, q) ↦ subst (Message input) (cc (p, q)) m
    | inr (inl (e, q)) ↦ absurd (cc (p, q))
    | inr (inr (c, q)) ↦ absurd (cc (p, q))
  ],
  λ m. parse_items-Message m (length input) [] [] (omega arith),
)

-- The parser panics exactly on the bytes in which, after some items, at least three bytes are left
-- and the second of them, a length, promises exactly one byte more than are left.
pub card_info_try_from-panic_iff :
    (input : List ℕ) → (card_info_try_from input ≡ panic) ↔ CutShort input
unfolding card_info_try_from
card_info_try_from-panic_iff input = (
  λ p. elim (card_info_try_from-Verdict input) [
    | inl (its, m, q) ↦ absurd (cc (p, q))
    | inr (inl (e, q)) ↦ absurd (cc (p, q))
    | inr (inr (c, q)) ↦ c
  ],
  λ c. parse_items-CutShort c (length input) [] [] (omega arith),
)
