-- ===== src/Derive/Getter.antt =====
-- The getters that the macros of sw/rust/warpshell-derive/src/lib.rs write.
use Prim.Native.String.{String}
use warpshell.Base.{List, [], ◌∷◌, ◌++◌, Option, none, some, ◌≡◌, refl, ap, ◌∙◌, ◌⊎◌, inl, inr}
use warpshell.Outcome.{Outcome, ok}
use warpshell.Derive.{
  Name, ident, Token, kw_impl, kw_for, kw_fn, kw_self, amp, arrow, dot, open_brace, close_brace,
  open_paren, close_paren, name, DeriveInput, derive_get_ctrl_channel, derive_get_dma_channel,
  impl_get_ctrl_channel, impl_get_dma_channel,
}
use warpshell.Derive.Generics.{
  Param, Unbounded, names, print_params, append-print_params, declared_all, Arguments-all,
}
use warpshell.Derive.Read.{Impl, read_impl}

-- The two kinds of channel, the macro for each, and the getter that a type needs
pub data Channel : Type 0 where
  ctrl dma : Channel

abbrev pub derive :
    Channel → (List Token → Option DeriveInput) → List Token → Outcome ⊥ (List Token)
derive ctrl = derive_get_ctrl_channel
derive dma = derive_get_dma_channel

abbrev pub getter : Channel → String → List Name → Impl
getter ctrl type_name arguments = record {
  declared = arguments;
  interface = "GetCtrlChannel";
  self_type = type_name;
  arguments = arguments;
  method = "get_ctrl_channel";
  result = "CtrlChannel";
  field = "ctrl_channel";
}
getter dma type_name arguments = record {
  declared = arguments;
  interface = "GetDmaChannel";
  self_type = type_name;
  arguments = arguments;
  method = "get_dma_channel";
  result = "DmaChannel";
  field = "dma_channel";
}

-- What a macro has made of a type is the getter of the channel for that type at its own parameters,
-- where no parameter has a bound, and does not read as one otherwise.
abbrev pub Derived : Channel → DeriveInput → List Param → List Token → Type 0
Derived channel ast params made =
    (Unbounded params × (read_impl made ≡ some (getter channel ast.ident_of (names params))))
    ⊎ ((Unbounded params → ⊥) × (read_impl made ≡ none))

module _ (i t m r f : String) where
  body : List Token
  body =
      kw_fn
      ∷ name (ident m)
      ∷ open_paren
      ∷ amp
      ∷ kw_self
      ∷ close_paren
      ∷ arrow
      ∷ amp
      ∷ name (ident r)
      ∷ open_brace
      ∷ kw_self
      ∷ dot
      ∷ name (ident f)
      ∷ close_brace
      ∷ close_brace
      ∷ []

  impl_of : List Token → List Token
  impl_of generics =
      kw_impl
      ∷ (generics ++ name (ident i) ∷ kw_for ∷ name (ident t) ∷ (generics ++ open_brace ∷ body))

  impl_for : List Name → Impl
  impl_for arguments = record {
    declared = arguments;
    interface = i;
    self_type = t;
    arguments = arguments;
    method = m;
    result = r;
    field = f;
  }

  read_impl_of :
      (generics : List Token) (params : List Param)
      → generics ≡ print_params params []
      → (Unbounded params × (read_impl (impl_of generics) ≡ some (impl_for (names params))))
        ⊎ ((Unbounded params → ⊥) × (read_impl (impl_of generics) ≡ none))
  unfolding impl_of impl_for body
  read_impl_of generics params shape =
      let arguments = print_params params (open_brace ∷ body) in
      let text = name (ident i) ∷ kw_for ∷ name (ident t) ∷ arguments in
      let printed : impl_of generics ≡ kw_impl ∷ print_params params text =
        rw (shape, append-print_params params (open_brace ∷ body), append-print_params params text)
          refl in
      elim (Arguments-all params body) [
        | inl (u, e) ↦ inl (
          u,
          ap read_impl printed
              ∙ rw (declared_all params (ident i) (kw_for ∷ name (ident t) ∷ arguments), e) refl,
        )
        | inr (u, e) ↦ inr (
          u,
          ap read_impl printed
              ∙ rw (declared_all params (ident i) (kw_for ∷ name (ident t) ∷ arguments), e) refl,
        )
      ]

module _ (parse : List Token → Option DeriveInput) where
  -- For every input that syn parses and whose generics it writes back as names with their bounds
  -- (no `const` parameter and no default), a macro makes tokens. Where no parameter has a bound, they read as an `impl` of the getter
  -- trait of its channel for the type at its own parameters, with the method that returns a reference
  -- to the field of that channel. Where one has a bound, they do not read as the `impl` of a getter,
  -- since the bound stands among the arguments of the type.
  pub derive-Derived :
      (channel : Channel) (input : List Token) (ast : DeriveInput) (params : List Param)
      → parse input ≡ some ast
      → ast.generics ≡ print_params params []
      → (made : List Token) × (derive channel parse input ≡ ok made)
        × Derived channel ast params made
  unfolding derive_get_ctrl_channel derive_get_dma_channel impl_get_ctrl_channel
      impl_get_dma_channel impl_of impl_for body
  derive-Derived ctrl input ast params parsed shape = (
    impl_get_ctrl_channel ast,
    rw parsed refl,
    read_impl_of "GetCtrlChannel" ast.ident_of "get_ctrl_channel" "CtrlChannel" "ctrl_channel"
        ast.generics params shape,
  )
  derive-Derived dma input ast params parsed shape = (
    impl_get_dma_channel ast,
    rw parsed refl,
    read_impl_of "GetDmaChannel" ast.ident_of "get_dma_channel" "DmaChannel" "dma_channel"
        ast.generics params shape,
  )
