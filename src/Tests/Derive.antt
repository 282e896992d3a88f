-- ===== src/Tests/Derive.antt =====
-- Runs of the derive macros.
use warpshell.Base.{List, [], ◌∷◌, Option, some, ◌≡◌, refl}
use warpshell.Outcome.{ok}
use warpshell.Derive.{lifetime, Token, lt, gt, name, DeriveInput}
use warpshell.Derive.Generics.{Param}
use warpshell.Derive.Getter.{ctrl, derive, Derived, derive-Derived}

abbrev cms : DeriveInput
cms = record { ident_of = "Cms"; generics = lt ∷ name (lifetime "a") ∷ gt ∷ [] }

-- A parser that takes any input for the struct `Cms<'a>`
abbrev parse : List Token → Option DeriveInput
parse input = some cms

abbrev params : List Param
params = record { param_name = lifetime "a"; bounds = [] } ∷ []

derive-Derived_example :
    (made : List Token) × (derive ctrl parse [] ≡ ok made) × Derived ctrl cms params made
derive-Derived_example = derive-Derived parse ctrl [] cms params refl refl
