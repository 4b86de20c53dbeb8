-- ===== src/Contract/Complete/Visit/Wants.antt =====
-- What the visit of a type and of a declaration asks for and rejects (src/contract/complete.rs).
use parc.Prelude.{ℕ, ◌+◌, ◌≡◌, inl, inr, refl, Bool, true, false, [], ◌∷◌, ◌++◌}
use parc.Prelude.Text.{Text, bytes}
use parc.Contract.Selection.{DeclarationId}
use parc.Contract.Diagnostics.{SupportStatus, supported, partial, is_supported}
use parc.Contract.Types.{
  CType, CTypeKind, CFunctionType, CFunctionParameters, CallingConvention, ArrayBound, ctype,
  pointer, array, alias_ref, record_ref, enum_ref, function_type, no_parameters, parameter,
}
use parc.Contract.Complete.Visit.{
  definition, Walk, reject_status, reject_convention, reject_bound, need_behind, indexed,
  visit_type, visit_kind, visit_function, visit_parameters, CompletionBlocker,
}
use parc.Contract.Complete.Visit.Effect.{
  Effect, Effect-id, Effect-block, Effect-then, Effect-as, Effect-enqueue, Wanted, no_wants, wants,
  both,
}

abbrev pub ConventionSupported : CallingConvention → Type 0
ConventionSupported (CallingConvention.unsupported _) = ⊥
ConventionSupported _ = Unit

abbrev pub BoundSupported : ArrayBound → Type 0
BoundSupported (ArrayBound.invalid _ _) = ⊥
BoundSupported _ = Unit

-- A type none of whose parts is unsupported, at any depth.
unfoldable mutual
  pub TypeSupported : CType → Type 0
  TypeSupported (ctype _ _ kind support) = (is_supported support ≡ true) × KindSupported kind

  pub KindSupported : CTypeKind → Type 0
  KindSupported (pointer inner) = TypeSupported inner
  KindSupported (array element bound _) = BoundSupported bound × TypeSupported element
  KindSupported (CTypeKind.function f) = FunctionSupported f
  KindSupported (CTypeKind.unsupported _ _) = ⊥
  KindSupported _ = Unit

  pub FunctionSupported : CFunctionType → Type 0
  FunctionSupported (function_type result parameters _ convention) =
      (ConventionSupported convention × TypeSupported result) × ParametersSupported parameters

  pub ParametersSupported : CFunctionParameters → Type 0
  ParametersSupported no_parameters = Unit
  ParametersSupported (parameter _ ty rest) = TypeSupported ty × ParametersSupported rest

-- The declarations that a type names, and what is needed of each: a definition, unless it is behind a
-- pointer and no enumeration.
unfoldable mutual
  pub TypeWants : Bool → CType → Wanted
  TypeWants behind (ctype _ _ kind _) = KindWants behind kind

  pub KindWants : Bool → CTypeKind → Wanted
  KindWants behind (pointer inner) = TypeWants true inner
  KindWants behind (array element _ _) = TypeWants behind element
  KindWants behind (CTypeKind.function f) = FunctionWants f
  KindWants behind (alias_ref t) = wants t (need_behind behind)
  KindWants behind (record_ref t) = wants t (need_behind behind)
  KindWants behind (enum_ref t) = wants t definition
  KindWants behind _ = no_wants

  pub FunctionWants : CFunctionType → Wanted
  FunctionWants (function_type result parameters _ _) =
      both (TypeWants false result) (ParametersWant parameters)

  pub ParametersWant : CFunctionParameters → Wanted
  ParametersWant no_parameters = no_wants
  ParametersWant (parameter _ ty rest) = both (TypeWants false ty) (ParametersWant rest)

-- A part that asks for nothing, before another one, and behind it.
pub Effect-pre :
    {f g : Walk → Walk} {P Q : Type 0} {N : Wanted}
    → Effect f P no_wants
    → Effect g Q N
    → Effect (λ v. g (f v)) (P × Q) N
Effect-pre a b =
    Effect-as ((λ p. p), (λ p. p))
      (λ t m. ((λ n. elim n [ inl x ↦ absurd x | inr y ↦ y ]), (λ n. inr n))) (Effect-then a b)

pub Effect-none : {P : Type 0} → P → Effect (λ v. v) P no_wants
Effect-none p = Effect-as ((λ _. p), (λ _. tt)) (λ t m. ((λ n. n), (λ n. n))) Effect-id

pub Effect-never :
    {P : Type 0} (b : CompletionBlocker)
    → ¬ P
    → Effect (λ v. record v { blockers = v.blockers ++ b ∷ [] }) P no_wants
Effect-never b n =
    Effect-as ((λ f. absurd f), (λ p. n p)) (λ t m. ((λ n. n), (λ n. n))) (Effect-block b)

pub status-Effect :
    (id : DeclarationId) (path : Text) (s : SupportStatus)
    → Effect (reject_status id path s) (is_supported s ≡ true) no_wants
status-Effect id path supported = Effect-none refl
status-Effect id path (partial c reason) =
    Effect-never (CompletionBlocker.unsupported id path reason) (λ e. cc)
status-Effect id path (SupportStatus.unsupported c reason) =
    Effect-never (CompletionBlocker.unsupported id path reason) (λ e. cc)

pub convention-Effect :
    (id : DeclarationId) (path : Text) (c : CallingConvention)
    → Effect (reject_convention id path c) (ConventionSupported c) no_wants
convention-Effect id path (CallingConvention.unsupported spelling) =
    Effect-block (CompletionBlocker.unsupported id path spelling)
convention-Effect id path _ = Effect-id

bound-Effect :
    (id : DeclarationId) (path : Text) (b : ArrayBound)
    → Effect (reject_bound id path b) (BoundSupported b) no_wants
bound-Effect id path (ArrayBound.invalid spelling c) =
    Effect-block (CompletionBlocker.unsupported id path spelling)
bound-Effect id path _ = Effect-id

mutual
  unfolding visit_type TypeSupported TypeWants

  pub type-Effect :
      (id : DeclarationId) (path : Text) (ty : CType) (behind : Bool)
      → Effect (visit_type id path ty behind) (TypeSupported ty) (TypeWants behind ty)
  type-Effect id path (ctype _ _ kind support) behind =
      Effect-pre (status-Effect id (path ++ bytes ".support") support)
        (kind-Effect id path kind behind)

  kind-Effect :
      (id : DeclarationId) (path : Text) (k : CTypeKind) (behind : Bool)
      → Effect (visit_kind id path k behind) (KindSupported k) (KindWants behind k)
  kind-Effect id path (pointer inner) behind = type-Effect id (path ++ bytes ".pointee") inner true
  kind-Effect id path (array element bound _) behind =
      Effect-pre (bound-Effect id (path ++ bytes ".bound") bound)
        (type-Effect id (path ++ bytes ".element") element behind)
  kind-Effect id path (CTypeKind.function f) behind = function-Effect id path f
  kind-Effect id path (alias_ref t) behind = Effect-enqueue t (need_behind behind)
  kind-Effect id path (record_ref t) behind = Effect-enqueue t (need_behind behind)
  kind-Effect id path (enum_ref t) behind = Effect-enqueue t definition
  kind-Effect id path (CTypeKind.unsupported _ spelling) behind =
      Effect-block (CompletionBlocker.unsupported id path spelling)
  kind-Effect id path _ behind = Effect-id

  function-Effect :
      (id : DeclarationId) (path : Text) (f : CFunctionType)
      → Effect (visit_function id path f) (FunctionSupported f) (FunctionWants f)
  function-Effect id path (function_type result parameters _ convention) =
      Effect-then
        (Effect-pre (convention-Effect id (path ++ bytes ".calling_convention") convention)
          (type-Effect id (path ++ bytes ".return_type") result false))
        (parameters-Effect id path 0 parameters)

  parameters-Effect :
      (id : DeclarationId) (path : Text) (index : ℕ) (ps : CFunctionParameters)
      → Effect (visit_parameters id path index ps) (ParametersSupported ps) (ParametersWant ps)
  parameters-Effect id path index no_parameters = Effect-id
  parameters-Effect id path index (parameter _ ty rest) =
      Effect-then (type-Effect id (indexed (path ++ bytes ".parameters") index) ty false)
        (parameters-Effect id path (index + 1) rest)
