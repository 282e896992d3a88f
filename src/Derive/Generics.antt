-- ===== src/Derive/Generics.antt =====
-- The generics of a type, as the macros of sw/rust/warpshell-derive/src/lib.rs write them: read as
-- parameters and as arguments.
use warpshell.Base.{List, [], ◌∷◌, ◌++◌, Option, none, some, ◌≡◌, refl, ◌∙◌, ◌⊎◌, inl, inr}
use warpshell.Derive.{Name, Token, lt, gt, comma, colon, plus, open_brace, name}
use warpshell.Derive.Read.{read_parameters, read_arguments, after_name, after_bound, more_arguments}

-- A generic parameter and its bounds
pub record Param : Type 0 where
  pub param_name : Name
  pub bounds : List Name

abbrev print_plus : List Name → List Token → List Token
print_plus [] text = text
print_plus (b ∷ bounds) text = plus ∷ name b ∷ print_plus bounds text

abbrev print_bounds : List Name → List Token → List Token
print_bounds [] text = text
print_bounds (b ∷ bounds) text = colon ∷ name b ∷ print_plus bounds text

abbrev print_more : List Param → List Token → List Token
print_more [] text = gt ∷ text
print_more (p ∷ params) text =
    comma ∷ name p.param_name ∷ print_bounds p.bounds (print_more params text)

-- The generics as syn writes them in front of `text`
abbrev pub print_params : List Param → List Token → List Token
print_params [] text = text
print_params (p ∷ params) text =
    lt ∷ name p.param_name ∷ print_bounds p.bounds (print_more params text)

-- No parameter has a bound.
abbrev pub Unbounded : List Param → Type 0
Unbounded [] = Unit
Unbounded (p ∷ params) = (p.bounds ≡ []) × Unbounded params

abbrev pub names : List Param → List Name
names [] = []
names (p ∷ params) = p.param_name ∷ names params

abbrev Read : Type 0
Read = List Name × List Token

append-print_plus :
    (bounds : List Name) (t text : List Token)
    → print_plus bounds t ++ text ≡ print_plus bounds (t ++ text)
append-print_plus [] t text = refl
append-print_plus (b ∷ bounds) t text = rw (append-print_plus bounds t text) refl

append-print_bounds :
    (bounds : List Name) (t text : List Token)
    → print_bounds bounds t ++ text ≡ print_bounds bounds (t ++ text)
append-print_bounds [] t text = refl
append-print_bounds (b ∷ bounds) t text = rw (append-print_plus bounds t text) refl

append-print_more :
    (params : List Param) (text : List Token)
    → print_more params [] ++ text ≡ print_more params text
append-print_more [] text = refl
append-print_more (p ∷ params) text =
    rw (append-print_bounds p.bounds (print_more params []) text, append-print_more params text)
      refl

pub append-print_params :
    (params : List Param) (text : List Token)
    → print_params params [] ++ text ≡ print_params params text
append-print_params [] text = refl
append-print_params (p ∷ params) text =
    rw (append-print_bounds p.bounds (print_more params []) text, append-print_more params text)
      refl

after_bound-print_plus :
    (bounds : List Name) (t : List Token) → after_bound (print_plus bounds t) ≡ after_bound t
after_bound-print_plus [] t = refl
after_bound-print_plus (b ∷ bounds) t = after_bound-print_plus bounds t

after_name-print_bounds :
    (bounds : List Name) (t : List Token) {r : Option Read}
    → (after_name t ≡ r) × (after_bound t ≡ r)
    → after_name (print_bounds bounds t) ≡ r
after_name-print_bounds [] t (e, k) = e
after_name-print_bounds (b ∷ bounds) t (e, k) = after_bound-print_plus bounds t ∙ k

-- Declared parameters are read with or without bounds.
declared_more :
    (params : List Param) (text : List Token)
    → (after_name (print_more params text) ≡ some (names params, text))
      × (after_bound (print_more params text) ≡ some (names params, text))
declared_more [] text = (refl, refl)
declared_more (p ∷ params) text =
    let rest =
      after_name-print_bounds p.bounds (print_more params text) (declared_more params text) in
    (rw rest refl, rw rest refl)

pub declared_all :
    (params : List Param) (n : Name) (text : List Token)
    → read_parameters (print_params params (name n ∷ text)) ≡ some (names params, name n ∷ text)
declared_all [] n text = refl
declared_all (p ∷ params) n text =
    rw
      (after_name-print_bounds p.bounds (print_more params (name n ∷ text))
        (declared_more params (name n ∷ text)))
      refl

-- What is read as arguments is the names, where there is no bound, and nothing otherwise.
abbrev Arguments : Type 0 → Option Read → Read → Type 0
Arguments unbounded read as_names =
    (unbounded × (read ≡ some as_names)) ⊎ ((unbounded → ⊥) × (read ≡ none))

Arguments-after :
    (bounds : List Name) (params : List Param) (text : List Token)
    → Arguments (Unbounded params) (more_arguments (print_more params text)) (names params, text)
    → Arguments
        ((bounds ≡ []) × Unbounded params)
        (more_arguments (print_bounds bounds (print_more params text)))
        (names params, text)
Arguments-after [] params text rest = elim rest [
  | inl (u, e) ↦ inl ((refl, u), e)
  | inr (u, e) ↦ inr ((λ h. u h.1), e)
]
Arguments-after (b ∷ bounds) params text rest = inr ((λ h. absurd (cc (h.0))), refl)

Arguments-more :
    (params : List Param) (text : List Token)
    → Arguments (Unbounded params) (more_arguments (print_more params text)) (names params, text)
Arguments-more [] text = inl (tt, refl)
Arguments-more (p ∷ params) text =
    elim (Arguments-after p.bounds params text (Arguments-more params text)) [
      | inl (u, e) ↦ inl (u, rw e refl)
      | inr (u, e) ↦ inr (u, rw e refl)
    ]

pub Arguments-all :
    (params : List Param) (text : List Token)
    → Arguments
        (Unbounded params)
        (read_arguments (print_params params (open_brace ∷ text)))
        (names params, open_brace ∷ text)
Arguments-all [] text = inl (tt, refl)
Arguments-all (p ∷ params) text =
    elim (Arguments-after p.bounds params (open_brace ∷ text) (Arguments-more params _)) [
      | inl (u, e) ↦ inl (u, rw e refl)
      | inr (u, e) ↦ inr (u, rw e refl)
    ]
