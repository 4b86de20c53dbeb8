-- ===== src/Contract/Complete/Visit/Refers.antt =====
-- What a declaration wants, by src/contract/complete.rs, it refers to, by src/contract/compose.rs.
use parc.Prelude.{inl, inr, Bool, true, false, List, [], ◌∷◌, Option, none, some}
use parc.Contract.Selection.{DeclarationId}
use parc.Contract.Types.{
  CType, CTypeKind, CFunctionType, CFunctionParameters, ctype, pointer, array, alias_ref,
  record_ref, enum_ref, function_type, no_parameters, parameter,
}
use parc.Contract.Declarations.{
  SourceDeclaration, SourceDeclarationKind, function, record_, enum, type_alias, variable,
  unsupported,
}
use parc.Contract.Compose.Closure.Refers.{
  TypeRefers, KindRefers, FunctionRefers, ParametersRefer, SomeRefers, OptionRefers,
  DeclarationRefers, Refers,
}
use parc.Contract.Complete.Visit.{Need, opaque_sufficient, definition}
use parc.Contract.Complete.Visit.Wants.{TypeWants, KindWants, FunctionWants, ParametersWant}
use parc.Contract.Complete.Visit.Requires.{SomeWants, OptionWants, BodyWants, Wants}

mutual
  unfolding TypeWants TypeRefers

  type-Refers :
      (b : Bool) (ty : CType) (t : DeclarationId) (m : Need) → TypeWants b ty t m → TypeRefers ty t
  type-Refers b (ctype _ _ kind _) t m h = kind-Refers b kind t m h

  kind-Refers :
      (b : Bool) (k : CTypeKind) (t : DeclarationId) (m : Need) → KindWants b k t m → KindRefers k t
  kind-Refers b (pointer inner) t m h = type-Refers true inner t m h
  kind-Refers b (array element _ _) t m h = type-Refers b element t m h
  kind-Refers b (CTypeKind.function f) t m h = function-Refers f t m h
  kind-Refers b (alias_ref x) t m h = h.0
  kind-Refers b (record_ref x) t m h = h.0
  kind-Refers b (enum_ref x) t m h = h.0
  kind-Refers b _ t m h = absurd h

  function-Refers :
      (f : CFunctionType) (t : DeclarationId) (m : Need) → FunctionWants f t m → FunctionRefers f t
  function-Refers (function_type result parameters _ _) t m h = elim h [
    | inl x ↦ inl (type-Refers false result t m x)
    | inr y ↦ inr (parameters-Refer parameters t m y)
  ]

  parameters-Refer :
      (ps : CFunctionParameters) (t : DeclarationId) (m : Need)
      → ParametersWant ps t m
      → ParametersRefer ps t
  parameters-Refer no_parameters t m h = absurd h
  parameters-Refer (parameter _ ty rest) t m h = elim h [
    | inl x ↦ inl (type-Refers false ty t m x)
    | inr y ↦ inr (parameters-Refer rest t m y)
  ]

some-Refers :
    {A : Type 0} (ty : A → CType) (xs : List A) (t : DeclarationId) (m : Need)
    → SomeWants ty xs t m
    → SomeRefers ty xs t
some-Refers ty [] t m h = absurd h
some-Refers ty (x ∷ xs) t m h = elim h [
  | inl a ↦ inl (type-Refers false (ty x) t m a)
  | inr b ↦ inr (some-Refers ty xs t m b)
]

option-Refers :
    (o : Option CType) (t : DeclarationId) (m : Need) → OptionWants o t m → OptionRefers o t
option-Refers none t m h = absurd h
option-Refers (some ty) t m h = type-Refers false ty t m h

body-Refers :
    (n : Need) (k : SourceDeclarationKind) (t : DeclarationId) (m : Need)
    → BodyWants n k t m
    → DeclarationRefers k t
body-Refers n (function f) t m h = elim h [
  | inl x ↦ inl (type-Refers false f.return_type t m x)
  | inr y ↦ inr (some-Refers (λ p. p.ty) f.parameters t m y)
]
body-Refers opaque_sufficient (record_ r) t m h = absurd h
body-Refers definition (record_ r) t m h = some-Refers (λ f. f.ty) r.fields t m h
body-Refers n (enum e) t m h = option-Refers e.explicit_underlying_type t m h
body-Refers n (type_alias a) t m h = type-Refers _ a.target t m h
body-Refers n (variable x) t m h = type-Refers false x.ty t m h
body-Refers n (unsupported u) t m h = absurd h

pub Wants-Refers :
    (n : Need) (d : SourceDeclaration) (t : DeclarationId) (m : Need) → Wants n d t m → Refers d t
unfolding Wants Refers
Wants-Refers n d t m h = inr (body-Refers n d.kind t m h)
