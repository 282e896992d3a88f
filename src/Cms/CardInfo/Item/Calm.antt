-- ===== src/Cms/CardInfo/Item/Calm.antt =====
-- The item parser of sw/rust/warpshell/src/cores/cms.rs and panics.
use warpshell.Base.{
  ℕ, zero, suc, List, [], ◌∷◌, ◌≢◌, refl, inl, inr, Bool, true, false, arith, if◌then◌else◌,
}
use warpshell.Outcome.{Outcome, ok, err, panic, Outcome-cases}
use warpshell.Cms.CardInfo.Item.{
  CardInfoItem, Parser, ◌>>=◌, pure, fail, next, next_n, expect_null, terminated, parse_string,
  parse_old_mac, parse_byte, parse_new_mac, parse_value, item_try_from,
}
use warpshell.Cms.CardInfo.Item.Key.{
  CardInfoKey, serial_number, CardInfoItemParseError, key_try_from, power_try_from, mode_try_from,
  cage_try_from,
}

abbrev Calm : {A : Type 0} → Parser A → Type 0
Calm m = (input : List ℕ) → m input ≢ panic

Calm-bind :
    {A B : Type 0} (m : Parser A) (f : A → Parser B)
    → Calm m
    → ((a : A) → Calm (f a))
    → Calm (m >>= f)
Calm-bind {A} m f cm cf input h = go (m input) (cm input) h
  where
    go :
        (r : Outcome CardInfoItemParseError (A × List ℕ))
        → r ≢ panic
        → elim r [ ok (a, rest) ↦ f a rest | err e ↦ err e | panic ↦ panic ] ≢ panic
    go (ok (a, rest)) k p = cf a rest p
    go (err e) k p = cc
    go panic k p = absurd (k refl)

Calm-next : Calm next
unfolding next
Calm-next [] h = cc
Calm-next (b ∷ rest) h = cc

Calm-if : {A : Type 0} (b : Bool) (m n : Parser A) → Calm m → Calm n → Calm (if b then m else n)
Calm-if true m n cm cn = cm
Calm-if false m n cm cn = cn

Calm-pure : {A : Type 0} (a : A) → Calm (pure a)
Calm-pure a input h = cc

Calm-fail : {A : Type 0} (e : CardInfoItemParseError) → Calm (fail {A = A} e)
Calm-fail e input h = cc

Calm-next_n : (n : ℕ) → Calm (next_n n)
unfolding next_n
Calm-next_n zero = Calm-pure []
Calm-next_n (suc n) =
    Calm-bind _ _ Calm-next (λ b. Calm-bind _ _ (Calm-next_n n) (λ v. Calm-pure (b ∷ v)))

Calm-terminated : (n : ℕ) → Calm (terminated n)
unfolding terminated expect_null
Calm-terminated n =
    Calm-bind _ _ (Calm-next_n n)
      (λ v. Calm-bind _ _ Calm-next (λ t. Calm-if _ _ _ (Calm-pure v) (Calm-fail _)))

Calm-string : (item : List ℕ → CardInfoItem) (len : ℕ) → Calm (parse_string item len)
unfolding parse_string
Calm-string item len =
    Calm-if _ _ _ (Calm-fail _) (Calm-bind _ _ (Calm-terminated _) (λ v. Calm-pure (item v)))

Calm-old_mac : (item : List ℕ → CardInfoItem) (len : ℕ) → Calm (parse_old_mac item len)
unfolding parse_old_mac
Calm-old_mac item len =
    Calm-if _ _ _
      (Calm-bind _ _ (Calm-terminated _) (λ v. Calm-if _ _ _ (Calm-pure (item v)) (Calm-fail _)))
      (Calm-fail _)

Calm-new_mac : (len : ℕ) → Calm (parse_new_mac len)
unfolding parse_new_mac
Calm-new_mac len =
    Calm-if _ _ _
      (Calm-bind _ _ Calm-next (λ n.
        Calm-bind _ _ Calm-next
          (λ r. Calm-bind _ _ (Calm-next_n 6) (λ v. Calm-if _ _ _ (Calm-pure _) (Calm-fail _)))))
      (Calm-fail _)

module _ {A : Type 0} (convert : ℕ → Outcome CardInfoItemParseError A)
    (item : A → CardInfoItem) where
  Calm-byte : ((b : ℕ) → convert b ≢ panic) → (len : ℕ) → Calm (parse_byte convert item len)
  unfolding parse_byte next
  Calm-byte c len [] h = ground arith
  Calm-byte c len (b ∷ input) h = ground (arith, c b)

power_calm : (b : ℕ) → power_try_from b ≢ panic
unfolding power_try_from
power_calm b h = ground arith

mode_calm : (b : ℕ) → mode_try_from b ≢ panic
unfolding mode_try_from
mode_calm b h = ground arith

cage_calm : (b : ℕ) → cage_try_from b ≢ panic
unfolding cage_try_from
cage_calm b h = ground arith

key_calm : (b : ℕ) → key_try_from b ≢ panic
unfolding key_try_from
key_calm b h = ground arith

ok_calm : (b : ℕ) → let r : Outcome CardInfoItemParseError ℕ = ok b in r ≢ panic
ok_calm b h = cc

ruleset calm_rules =
    (Calm-string, Calm-old_mac, Calm-new_mac, Calm-byte, power_calm, mode_calm, cage_calm, ok_calm)

Calm-value : (key : CardInfoKey) (len : ℕ) → Calm (parse_value key len)
unfolding parse_value
Calm-value serial_number len = search calm_rules
Calm-value _ len = search calm_rules

pub item_try_from-ne-panic : (input : List ℕ) → item_try_from input ≢ panic
unfolding item_try_from next
item_try_from-ne-panic [] h = ground arith
item_try_from-ne-panic (b ∷ []) h = ground (arith, key_calm b)
item_try_from-ne-panic (b ∷ len ∷ input) h = elim (Outcome-cases (key_try_from b)) [
  | inl (k, e) ↦ ground (arith, Calm-value k len input)
  | inr (inl (x, e)) ↦ ground arith
  | inr (inr e) ↦ key_calm b e
]
