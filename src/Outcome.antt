-- ===== src/Outcome.antt =====
-- Rust's `Result`, with one more case for a panic (a slice out of bounds, `todo!()`), which no
-- `?`, `map_err` or `ok()` catches; and effects over the log of system calls.
pub mod Costs
use warpshell.Base.{ℕ, List, ◌∷◌, ◌≡◌, ◌≢◌, refl, sym, ap, ◌∙◌, arith, ◌⊎◌, inl, inr}
use warpshell.System.{Call, print_line}

pub data Outcome (X A : Type 0) : Type 0 where
  ok : A → Outcome X A
  err : X → Outcome X A
  panic : Outcome X A

-- An effectful computation takes the calls made so far and returns them with its own in front.
abbrev pub Exec : Type 0 → Type 0 → Type 0
Exec X A = List Call → Outcome X A × List Call

module _ {X A B : Type 0} where
  abbrev pub continue : Outcome X A → (A → Exec X B) → Exec X B
  continue (ok a) f s = f a s
  continue (err e) f s = (err e, s)
  continue panic f s = (panic, s)

  infixl 5 ◌>>=◌ ◌>>◌
  abbrev pub ◌>>=◌ : Exec X A → (A → Exec X B) → Exec X B
  ◌>>=◌ m f s = continue (m s).0 f (m s).1

  abbrev pub ◌>>◌ : Exec X A → Exec X B → Exec X B
  m >> n = m >>= λ _. n

abbrev pub pure : {X A : Type 0} → A → Exec X A
pure a s = (ok a, s)

abbrev pub raise : {X A : Type 0} → X → Exec X A
raise e s = (err e, s)

abbrev pub panics : {X A : Type 0} → Exec X A
panics s = (panic, s)

-- `map_err`, and the `From` conversion in `?`
abbrev pub map_error : {X Y A : Type 0} → (X → Y) → Outcome X A → Outcome Y A
map_error f (ok a) = ok a
map_error f (err e) = err (f e)
map_error f panic = panic

abbrev pub map_err : {X Y A : Type 0} → (X → Y) → Exec X A → Exec Y A
map_err f m s = (map_error f (m s).0, (m s).1)

-- `println!`, on a standard output that takes the line
abbrev pub println : {X : Type 0} → List ℕ → Exec X Unit
println line calls = (ok tt, print_line line ∷ calls)

-- A pure fallible result inside an effectful function
abbrev pub lift : {X A : Type 0} → Outcome X A → Exec X A
lift r s = (r, s)

pub Outcome-cases :
    {X A : Type 0} (r : Outcome X A)
    → ((a : A) × (r ≡ ok a)) ⊎ ((e : X) × (r ≡ err e)) ⊎ (r ≡ panic)
Outcome-cases (ok a) = inl (a, refl)
Outcome-cases (err e) = inr (inl (e, refl))
Outcome-cases panic = inr (inr refl)

pub ok-injective : {X A : Type 0} {a b : A} → ◌≡◌ {A = Outcome X A} (ok a) (ok b) → a ≡ b
ok-injective h = cc h

-- Inversion of a bind that succeeds
pub bind-ok :
    {X A B : Type 0} (m : Exec X A) (f : A → Exec X B) (s : List Call) {b : B}
    → ((m >>= f) s).0 ≡ ok b
    → (a : A) × ((m s).0 ≡ ok a) × ((m >>= f) s ≡ f a (m s).1)
bind-ok {X} {A} {B} m f s {b} h = go (m s).0 refl h
  where
    go :
        (r : Outcome X A)
        → (m s).0 ≡ r
        → (continue r f (m s).1).0 ≡ ok b
        → (a : A) × ((m s).0 ≡ ok a) × (continue (m s).0 f (m s).1 ≡ f a (m s).1)
    go (ok a) e k = (a, e, ap (λ o. continue o f (m s).1) e)
    go (err x) e k = absurd (cc k)
    go panic e k = absurd (cc k)

-- The same, with what runs on
pub bind-ok_next :
    {X A B : Type 0} (m : Exec X A) (f : A → Exec X B) (s : List Call) {b : B}
    → ((m >>= f) s).0 ≡ ok b
    → (a : A) × ((m s).0 ≡ ok a) × (((m >>= f) s).1 ≡ (f a (m s).1).1) × ((f a (m s).1).0 ≡ ok b)
bind-ok_next m f s h =
    let (a, e, run) = bind-ok m f s h in (a, e, ap (λ p. p.1) run, sym (ap (λ p. p.0) run) ∙ h)

pub map_err-ok :
    {X Y A : Type 0} (g : X → Y) (m : Exec X A) (s : List Call) {a : A}
    → (map_err g m s).0 ≡ ok a
    → (m s).0 ≡ ok a
map_err-ok g m s h = ground arith

-- `m` does not panic.
abbrev pub Calm : {X A : Type 0} → Exec X A → Type 0
Calm m = (s : List Call) → (m s).0 ≢ panic

pub Calm-bind :
    {X A B : Type 0} (m : Exec X A) (f : A → Exec X B)
    → Calm m
    → ((a : A) → Calm (f a))
    → Calm (m >>= f)
Calm-bind m f cm cf s = elim (Outcome-cases (m s).0) [
  | inl (a, e) ↦ rw e (cf a (m s).1)
  | inr (inl (x, e)) ↦ rw e (λ h. cc h)
  | inr (inr e) ↦ absurd (cm s e)
]

pub Calm-map_err : {X Y A : Type 0} (g : X → Y) (m : Exec X A) → Calm m → Calm (map_err g m)
Calm-map_err g m cm s h = cm s (ground arith)

-- A bind whose first part does not panic panics in the second.
pub bind-panic :
    {X A B : Type 0} (m : Exec X A) (f : A → Exec X B) (s : List Call)
    → Calm m
    → ((m >>= f) s).0 ≡ panic
    → (a : A) × ((m s).0 ≡ ok a) × ((f a (m s).1).0 ≡ panic)
bind-panic m f s calm h = elim (Outcome-cases (m s).0) [
  | inl (a, e) ↦ (a, e, rw e at h)
  | inr (inl (x, e)) ↦ absurd (cc (rw e at h))
  | inr (inr e) ↦ absurd (calm s e)
]

pub map_err-panic :
    {X Y A : Type 0} (f : X → Y) (m : Exec X A) (s : List Call)
    → (map_err f m s).0 ≡ panic
    → (m s).0 ≡ panic
map_err-panic f m s h = elim (Outcome-cases (m s).0) [
  | inl (a, e) ↦ absurd (cc (rw e at h))
  | inr (inl (x, e)) ↦ absurd (cc (rw e at h))
  | inr (inr e) ↦ e
]

-- A bind whose second part does not panic panics in the first.
pub bind-panic_first :
    {X A B : Type 0} (m : Exec X A) (f : A → Exec X B) (s : List Call)
    → ((a : A) → Calm (f a))
    → ((m >>= f) s).0 ≡ panic
    → (m s).0 ≡ panic
bind-panic_first m f s calm h = elim (Outcome-cases (m s).0) [
  | inl (a, e) ↦ absurd (calm a (m s).1 (rw e at h))
  | inr (inl (x, e)) ↦ absurd (cc (rw e at h))
  | inr (inr e) ↦ e
]
