-- ===== src/Derive.antt =====
-- sw/rust/warpshell-derive/src/lib.rs: the derive macros of the channel getters. The parser of the crate
-- syn is a parameter.
pub mod Read
pub mod Generics
pub mod Getter
use Prim.Native.String.{String}
use warpshell.Base.{List, [], ◌∷◌, ◌++◌, Option, none, some}
use warpshell.Outcome.{Outcome, ok, panic}

pub data Name : Type 0 where
  lifetime ident : String → Name

-- The tokens that the macros make, delimiters and punctuation one by one
pub data Token : Type 0 where
  kw_impl kw_for kw_fn kw_self lt gt comma colon plus amp arrow dot : Token
  open_brace close_brace open_paren close_paren : Token
  name : Name → Token

-- The two fields of `syn::DeriveInput` that are used: the name of the type, and its generics as
-- `quote!` writes them
pub record DeriveInput : Type 0 where
  pub ident_of : String
  pub generics : List Token

unfoldable pub impl_get_ctrl_channel : DeriveInput → List Token
impl_get_ctrl_channel ast =
    kw_impl
    ∷ (ast.generics
        ++ name (ident "GetCtrlChannel")
          ∷ kw_for
          ∷ name (ident ast.ident_of)
          ∷ (ast.generics
              ++ open_brace
                ∷ kw_fn
                ∷ name (ident "get_ctrl_channel")
                ∷ open_paren
                ∷ amp
                ∷ kw_self
                ∷ close_paren
                ∷ arrow
                ∷ amp
                ∷ name (ident "CtrlChannel")
                ∷ open_brace
                ∷ kw_self
                ∷ dot
                ∷ name (ident "ctrl_channel")
                ∷ close_brace
                ∷ close_brace
                ∷ []))

unfoldable pub impl_get_dma_channel : DeriveInput → List Token
impl_get_dma_channel ast =
    kw_impl
    ∷ (ast.generics
        ++ name (ident "GetDmaChannel")
          ∷ kw_for
          ∷ name (ident ast.ident_of)
          ∷ (ast.generics
              ++ open_brace
                ∷ kw_fn
                ∷ name (ident "get_dma_channel")
                ∷ open_paren
                ∷ amp
                ∷ kw_self
                ∷ close_paren
                ∷ arrow
                ∷ amp
                ∷ name (ident "DmaChannel")
                ∷ open_brace
                ∷ kw_self
                ∷ dot
                ∷ name (ident "dma_channel")
                ∷ close_brace
                ∷ close_brace
                ∷ []))

-- `Option::unwrap`, or `Result::unwrap`, and what is made of the value
abbrev pub unwrap_to : {A B : Type 0} → (A → B) → Option A → Outcome ⊥ B
unwrap_to f none = panic
unwrap_to f (some a) = ok (f a)

module _ (parse : List Token → Option DeriveInput) where
  unfoldable pub derive_get_ctrl_channel : List Token → Outcome ⊥ (List Token)
  derive_get_ctrl_channel input = unwrap_to impl_get_ctrl_channel (parse input)

  unfoldable pub derive_get_dma_channel : List Token → Outcome ⊥ (List Token)
  derive_get_dma_channel input = unwrap_to impl_get_dma_channel (parse input)
