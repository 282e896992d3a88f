-- ===== src/Cms/CardInfo/Walk.antt =====
-- One round of the loop of `CardInfo::try_from` (sw/rust/warpshell/src/cores/cms.rs), seen from the
-- bytes that are left.
use warpshell.Base.{
  ℕ, zero, suc, ◌+◌, ◌-◌, ◌≤◌, List, [], ◌∷◌, ◌++◌, true, false, ◌≡◌, ap, ◌∙◌, arith, ltb, leb,
  length, take, length-append, get_elem?-append_right, drop-append_length, if◌then◌else◌,
}
use warpshell.Outcome.{Outcome, ok, err, panic}
use warpshell.Cms.CardInfo.{
  CardInfoParseError, item_length_out_of_bounds, or_panic, slice, index, ◌>>=◌, converted,
  next_item, parse_items,
}
use warpshell.Cms.CardInfo.Item.{CardInfoItem, item_try_from}

pub index-append :
    {X : Type 0} (pre r : List ℕ) (i : ℕ) → index {X = X} (pre ++ r) (length pre + i) ≡ index r i
unfolding index
index-append pre r i = ap or_panic (get_elem?-append_right pre r i)

pub slice-append :
    {X : Type 0} (pre r : List ℕ) (n : ℕ)
    → slice {X = X} (pre ++ r) (length pre) (length pre + n)
      ≡ (if leb n (length r) then ok (take n r) else panic)
unfolding slice
slice-append pre r n =
    let cut : length pre + n - length pre ≡ n = omega arith in
    rw (cut, drop-append_length) (ground (arith, length-append pre r))

-- The item whose length byte is `l`, at the front of the bytes `r` that are left.
abbrev pub next_of : ℕ → List ℕ → Outcome CardInfoParseError (CardInfoItem × ℕ)
next_of l r =
    if ltb (length r) (l + 1)
    then err item_length_out_of_bounds
    else if leb (l + 2) (length r)
    then converted (item_try_from (take (l + 2) r)) >>= (λ item. ok (item, l + 2))
    else panic

pub next_item-append :
    (pre : List ℕ) (k l : ℕ) (more : List ℕ)
    → next_item (pre ++ (k ∷ l ∷ more)) (length pre) ≡ next_of l (k ∷ l ∷ more)
unfolding next_item
next_item-append pre k l more =
    let r : List ℕ = k ∷ l ∷ more in
    let second : index {X = CardInfoParseError} (pre ++ r) (length pre + 1) ≡ ok l =
      index-append pre r 1 in
    let bound : ltb (length (pre ++ r)) (length pre + (l + 2) - 1) ≡ ltb (length r) (l + 1) =
      ground (arith, length-append pre r) in
    rw (second, bound, slice-append pre r (l + 2)) (ground arith)

parse_items_stop :
    (fuel : ℕ) (input : List ℕ) (items : List CardInfoItem) (parsed_len : ℕ)
    → ltb (parsed_len + 2) (length input) ≡ false
    → parse_items fuel input items parsed_len ≡ ok items
unfolding parse_items
parse_items_stop zero input items parsed_len h = ground arith
parse_items_stop (suc fuel) input items parsed_len h = ground arith

parse_items_go :
    (fuel : ℕ) (input : List ℕ) (items : List CardInfoItem) (parsed_len : ℕ)
    → ltb (parsed_len + 2) (length input) ≡ true
    → parse_items (suc fuel) input items parsed_len ≡ (
        next_item input parsed_len >>= λ parsed.
        parse_items fuel input (items ++ (parsed.0 ∷ [])) (parsed_len + parsed.1))
unfolding parse_items
parse_items_go fuel input items parsed_len h = ground arith

module _ (fuel : ℕ) (pre : List ℕ) (items : List CardInfoItem) where
  -- At most two bytes are left: the loop ends.
  pub parse_items_end :
      (r : List ℕ) → length r ≤ 2 → parse_items fuel (pre ++ r) items (length pre) ≡ ok items
  parse_items_end r h =
      let ended : ltb (length pre + 2) (length (pre ++ r)) ≡ false =
        ground (arith, length-append pre r) in
      parse_items_stop fuel (pre ++ r) items (length pre) ended

  -- More are left, the second being `l`.
  pub parse_items_more :
      (k l x : ℕ) (more : List ℕ)
      → let r = k ∷ l ∷ x ∷ more in
        parse_items (suc fuel) (pre ++ r) items (length pre) ≡ (
          next_of l r >>= λ parsed.
          parse_items fuel (pre ++ r) (items ++ (parsed.0 ∷ [])) (length pre + parsed.1))
  parse_items_more k l x more =
      let r : List ℕ = k ∷ l ∷ x ∷ more in
      let goes_on : ltb (length pre + 2) (length (pre ++ r)) ≡ true =
        ground (arith, length-append pre r) in
      parse_items_go fuel (pre ++ r) items (length pre) goes_on
      ∙ ap
          (λ o. o >>= λ parsed.
            parse_items fuel (pre ++ r) (items ++ (parsed.0 ∷ [])) (length pre + parsed.1))
          (next_item-append pre k l (x ∷ more))
