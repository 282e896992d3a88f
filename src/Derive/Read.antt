-- ===== src/Derive/Read.antt =====
-- Reading the `impl` of a getter, which sw/rust/warpshell-derive/src/lib.rs makes, back from tokens. The
-- arguments of the type are names, as in a use of its own parameters.
use Prim.Native.String.{String}
use warpshell.Base.{List, [], ◌∷◌, Option, none, some}
use warpshell.Derive.{
  Name, ident, Token, kw_impl, kw_for, kw_fn, kw_self, lt, gt, comma, colon, plus, amp, arrow, dot,
  open_brace, close_brace, open_paren, close_paren, name,
}

-- What is read of a getter's `impl`: the generic parameters it declares, the trait, the type and its
-- arguments, the method, the type behind the reference it returns, and the field that is returned
pub record Impl : Type 0 where
  pub declared : List Name
  pub interface : String
  pub self_type : String
  pub arguments : List Name
  pub method : String
  pub result : String
  pub field : String

abbrev pub and_then : {A B : Type 0} → Option A → (A → Option B) → Option B
and_then none f = none
and_then (some a) f = f a

abbrev pub names_and : Name → List Name × List Token → Option (List Name × List Token)
names_and n (ns, text) = some (n ∷ ns, text)

-- The arguments of a type, behind the first: names alone
abbrev pub more_arguments : List Token → Option (List Name × List Token)
more_arguments (gt ∷ text) = some ([], text)
more_arguments (comma ∷ name n ∷ text) = and_then (more_arguments text) (names_and n)
more_arguments _ = none

abbrev pub read_arguments : List Token → Option (List Name × List Token)
read_arguments (lt ∷ name n ∷ text) = and_then (more_arguments text) (names_and n)
read_arguments (lt ∷ _) = none
read_arguments text = some ([], text)

-- Generic parameters, which can have bounds: what follows a name, and what follows a bound
abbrev mutual
  pub after_name : List Token → Option (List Name × List Token)
  after_name (gt ∷ text) = some ([], text)
  after_name (comma ∷ name n ∷ text) = and_then (after_name text) (names_and n)
  after_name (colon ∷ name b ∷ text) = after_bound text
  after_name _ = none

  pub after_bound : List Token → Option (List Name × List Token)
  after_bound (gt ∷ text) = some ([], text)
  after_bound (comma ∷ name n ∷ text) = and_then (after_name text) (names_and n)
  after_bound (plus ∷ name b ∷ text) = after_bound text
  after_bound _ = none

abbrev pub read_parameters : List Token → Option (List Name × List Token)
read_parameters (lt ∷ name n ∷ text) = and_then (after_name text) (names_and n)
read_parameters (lt ∷ _) = none
read_parameters text = some ([], text)

abbrev pub read_body : List Token → Option (String × String × String)
read_body
      (open_brace
        ∷ kw_fn
        ∷ name (ident m)
        ∷ open_paren
        ∷ amp
        ∷ kw_self
        ∷ close_paren
        ∷ arrow
        ∷ amp
        ∷ name (ident r)
        ∷ open_brace
        ∷ kw_self
        ∷ dot
        ∷ name (ident f)
        ∷ close_brace
        ∷ close_brace
        ∷ []) =
    some (m, r, f)
read_body _ = none

abbrev pub read_type : List Name → String → String → List Name × List Token → Option Impl
read_type declared interface self_type (arguments, text) = and_then (read_body text) λ body.
    some (record {
      declared = declared;
      interface = interface;
      self_type = self_type;
      arguments = arguments;
      method = body.0;
      result = body.1;
      field = body.2;
    })

abbrev pub read_interface : List Name × List Token → Option Impl
read_interface (declared, name (ident i) ∷ kw_for ∷ name (ident t) ∷ text) =
    and_then (read_arguments text) (read_type declared i t)
read_interface _ = none

abbrev pub read_impl : List Token → Option Impl
read_impl (kw_impl ∷ text) = and_then (read_parameters text) read_interface
read_impl _ = none
