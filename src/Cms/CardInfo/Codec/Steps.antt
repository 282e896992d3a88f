-- ===== src/Cms/CardInfo/Codec/Steps.antt =====
-- What each step of the item parser takes from the input, in both directions.
use warpshell.Base.{
  ℕ, zero, suc, ◌-◌, List, [], ◌∷◌, ◌++◌, ◌≡◌, ◌≢◌, refl, sym, ap, ap₂, subst, ◌∙◌, arith, length,
  length-append, ◌==◌, if◌then◌else◌, Bool-cases, inl, inr,
}
use mathlib.Core.List.{append_assoc}
use warpshell.Outcome.{Outcome, ok, err, panic, Outcome-cases}
use warpshell.Cms.CardInfo.Item.{
  CardInfoItem, new_mac_scheme_item, Parser, ◌>>=◌, pure, fail, next, next_n, expect_null,
  terminated, parse_string, parse_old_mac, parse_byte, parse_new_mac,
}
use warpshell.Cms.CardInfo.Item.Key.{CardInfoItemParseError, incorrect_length}

pub >>=-eq-ok :
    {A B : Type 0} (m : Parser A) (f : A → Parser B) (input : List ℕ) {b : B} {rest : List ℕ}
    → (m >>= f) input ≡ ok (b, rest)
    → (a : A) × (mid : List ℕ) × (m input ≡ ok (a, mid)) × (f a mid ≡ ok (b, rest))
>>=-eq-ok {A} {B} m f input {b} {rest} h = go (m input) refl h
  where
    go :
        (r : Outcome CardInfoItemParseError (A × List ℕ))
        → m input ≡ r
        → elim r [ ok (a, rest) ↦ f a rest | err e ↦ err e | panic ↦ panic ] ≡ ok (b, rest)
        → (a : A) × (mid : List ℕ) × (m input ≡ ok (a, mid)) × (f a mid ≡ ok (b, rest))
    go (ok (a, mid)) e k = (a, mid, e, k)
    go (err x) e k = cc
    go panic e k = cc

pub next_n-append : (v rest : List ℕ) → next_n (length v) (v ++ rest) ≡ ok (v, rest)
unfolding next_n next
next_n-append [] rest = refl
next_n-append (b ∷ v) rest = ground (arith, next_n-append v rest)

pub next_n_sound :
    (n : ℕ) (input v rest : List ℕ)
    → next_n n input ≡ ok (v, rest)
    → (input ≡ v ++ rest) × (length v ≡ n)
unfolding next_n next
next_n_sound zero input v rest h = ground arith
next_n_sound (suc n) [] v rest h = cc
next_n_sound (suc n) (b ∷ input) v rest h =
    let (w, mid, e, k) = >>=-eq-ok (next_n n) _ input h in
    ground (arith, next_n_sound n input w mid e, k)

expect_null_sound :
    (w mid v rest : List ℕ) → expect_null w mid ≡ ok (v, rest) → (w ≡ v) × (mid ≡ 0 ∷ rest)
unfolding expect_null next
expect_null_sound w [] v rest h = cc
expect_null_sound w (zero ∷ mid) v rest h = ground arith
expect_null_sound w (suc b ∷ mid) v rest h = ground arith

pub terminated-append : (v rest : List ℕ) → terminated (length v) (v ++ (0 ∷ rest)) ≡ ok (v, rest)
unfolding terminated expect_null next
terminated-append v rest = ground (arith, next_n-append v (0 ∷ rest))

pub terminated_sound :
    (n : ℕ) (input v rest : List ℕ)
    → terminated n input ≡ ok (v, rest)
    → (input ≡ v ++ (0 ∷ rest)) × (length v ≡ n)
unfolding terminated
terminated_sound n input v rest h =
    let (w, mid, e, k) = >>=-eq-ok (next_n n) expect_null input h in
    let (i, l) = next_n_sound n input w mid e in
    let (t, z) = expect_null_sound w mid v rest k in (i ∙ ap₂ ◌++◌ t z, ap length (sym t) ∙ l)

append-assoc_one : (v rest : List ℕ) (z : ℕ) → (v ++ (z ∷ [])) ++ rest ≡ v ++ (z ∷ rest)
append-assoc_one v rest z = append_assoc v (z ∷ []) rest

pub length-terminated : (v : List ℕ) → length (v ++ (0 ∷ [])) ≡ suc (length v)
length-terminated v = omega (arith, length-append v (0 ∷ []))

-- The arms of a string, given as the value that they take.
module _ (item : List ℕ → CardInfoItem) where
  pub parse_string-append :
      (v rest : List ℕ)
      → parse_string item (suc (length v)) ((v ++ (0 ∷ [])) ++ rest) ≡ ok (item v, rest)
  unfolding parse_string
  parse_string-append v rest =
      let e : suc (length v) - 1 ≡ length v = omega arith in
      rw append_assoc (ground (arith, e, terminated-append v rest))

  pub parse_string_sound :
      (len : ℕ) (input rest : List ℕ) (i : CardInfoItem)
      → parse_string item len input ≡ ok (i, rest)
      → (v : List ℕ) × (i ≡ item v)
        × (input ≡ (v ++ (0 ∷ [])) ++ rest)
        × (len ≡ length (v ++ (0 ∷ [])))
  unfolding parse_string
  parse_string_sound zero input rest i h = cc
  parse_string_sound (suc len) input rest i h =
      let n : ℕ = suc len - 1 in
      let opened : (terminated n >>= λ v. pure (item v)) input ≡ ok (i, rest) = ground arith in
      let (v, mid, e, k) = >>=-eq-ok (terminated n) (λ v. pure (item v)) input opened in
      let (s, l) = terminated_sound n input v mid e in
      let last : mid ≡ rest = ground arith in
      (
        v,
        ground arith,
        s ∙ ap (λ r. v ++ (0 ∷ r)) last ∙ sym (append_assoc v (0 ∷ []) rest),
        omega (arith, length-terminated v),
      )

  -- The 17 bytes never fit the array of 16.
  pub parse_old_mac_fails :
      (len : ℕ) (input rest : List ℕ) (i : CardInfoItem)
      → parse_old_mac item len input ≢ ok (i, rest)
  unfolding parse_old_mac
  parse_old_mac_fails len input rest i h = elim (Bool-cases (len == 18)) [
    | inl e ↦
        let n : ℕ = len - 1 in
        let convert : List ℕ → Parser CardInfoItem =
          λ v. if length v == 16 then pure (item v) else fail incorrect_length in
        let opened : (terminated n >>= convert) input ≡ ok (i, rest) = ground arith in
        let (v, mid, t, k) = >>=-eq-ok (terminated n) convert input opened in
        ground (arith, terminated_sound n input v mid t, k)
    | inr e ↦ ground arith
  ]

pub parse_byte-cons :
    {A : Type 0} (convert : ℕ → Outcome CardInfoItemParseError A) (item : A → CardInfoItem) (b : ℕ)
    (rest : List ℕ) {a : A}
    → convert b ≡ ok a
    → parse_byte convert item 1 (b ∷ rest) ≡ ok (item a, rest)
unfolding parse_byte next
parse_byte-cons convert item b rest e = ground arith

pub parse_byte_sound :
    {A : Type 0} (convert : ℕ → Outcome CardInfoItemParseError A) (item : A → CardInfoItem)
    (len : ℕ) (input rest : List ℕ) (i : CardInfoItem)
    → parse_byte convert item len input ≡ ok (i, rest)
    → (b : ℕ) × (a : A) × (convert b ≡ ok a) × (i ≡ item a) × (input ≡ b ∷ rest) × (len ≡ 1)
unfolding parse_byte next
parse_byte_sound convert item len [] rest i h = absurd (ground arith)
parse_byte_sound convert item len (b ∷ input) rest i h = elim (Outcome-cases (convert b)) [
  | inl (a, e) ↦ (b, a, e, ground arith, ground arith, ground arith)
  | inr (inl (x, e)) ↦ absurd (ground arith)
  | inr (inr e) ↦ absurd (ground arith)
]

pub parse_new_mac-append :
    (n reserved : ℕ) (mac rest : List ℕ)
    → length mac ≡ 6
    → parse_new_mac 8 (n ∷ reserved ∷ mac ++ rest) ≡ ok (new_mac_scheme_item n mac, rest)
unfolding parse_new_mac next
parse_new_mac-append n reserved mac rest e =
    let taken : next_n 6 (mac ++ rest) ≡ ok (mac, rest) =
      subst (λ k. next_n k (mac ++ rest) ≡ ok (mac, rest)) e (next_n-append mac rest) in
    ground arith

pub parse_new_mac_sound :
    (len : ℕ) (input rest : List ℕ) (i : CardInfoItem)
    → parse_new_mac len input ≡ ok (i, rest)
    → (n : ℕ) × (reserved : ℕ) × (mac : List ℕ) × (i ≡ new_mac_scheme_item n mac)
      × (input ≡ n ∷ reserved ∷ mac ++ rest)
      × (length mac ≡ 6)
      × (len ≡ 8)
unfolding parse_new_mac next
parse_new_mac_sound len [] rest i h = absurd (ground arith)
parse_new_mac_sound len (n ∷ []) rest i h = absurd (ground arith)
parse_new_mac_sound len (n ∷ reserved ∷ input) rest i h =
    let convert : List ℕ → Parser CardInfoItem =
      λ v. if length v == 6 then pure (new_mac_scheme_item n v) else fail incorrect_length in
    let opened : (next_n 6 >>= convert) input ≡ ok (i, rest) = ground arith in
    let (mac, mid, t, k) = >>=-eq-ok (next_n 6) convert input opened in
    let (s, l) = next_n_sound 6 input mac mid t in
    let last : (new_mac_scheme_item n mac ≡ i) × (mid ≡ rest) = ground arith in
    (
      n,
      reserved,
      mac,
      sym (last.0),
      ap (λ r. n ∷ reserved ∷ r) (s ∙ ap (λ r. mac ++ r) (last.1)),
      l,
      ground arith,
    )
