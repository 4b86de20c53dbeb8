-- ===== src/Contract/Compose/Closure/Refers.antt =====
-- What a declaration refers to, as a relation, and that the functions `enqueue_…` of
-- src/contract/compose.rs add exactly that to the queue.
use parc.Prelude.{◌≡◌, ◌⊎◌, ◌↔◌, true, List, [], ◌∷◌, ◌++◌, Option, none, some, arith}
use parc.Contract.Selection.{DeclarationId, member}
use parc.Contract.Types.{
  CType, CTypeKind, CFunctionType, CFunctionParameters, ctype, function_type, no_parameters,
  parameter, pointer, array, alias_ref, record_ref, enum_ref,
}
use parc.Contract.Declarations.{
  SourceParameter, SourceField, SourceDeclaration, SourceDeclarationKind, DeclarationIdentity,
  named, anonymous, EntityScope, owner, function, record_, enum, type_alias, variable, unsupported,
}
use parc.Contract.Compose.Closure.{
  Queue, enqueue_type_references, enqueue_kind_references, enqueue_function_references,
  enqueue_parameter_references, enqueue_parameters, enqueue_fields, enqueue_declaration_references,
  enqueue_owner, enqueue_underlying, enqueue_all,
}
use parc.Contract.Compose.Closure.Queue.{member-append}

abbrev pub Ids : Type 1
Ids = DeclarationId → Type 0

abbrev no_ids : Ids
no_ids id = ⊥

abbrev just : DeclarationId → Ids
just x id = x ≡ id

abbrev either : Ids → Ids → Ids
either P Q id = P id ⊎ Q id

-- The identifiers in a type, at any depth.
unfoldable mutual
  pub TypeRefers : CType → Ids
  TypeRefers (ctype _ _ kind _) = KindRefers kind

  pub KindRefers : CTypeKind → Ids
  KindRefers (pointer inner) = TypeRefers inner
  KindRefers (array element _ _) = TypeRefers element
  KindRefers (CTypeKind.function f) = FunctionRefers f
  KindRefers (alias_ref x) = just x
  KindRefers (record_ref x) = just x
  KindRefers (enum_ref x) = just x
  KindRefers _ = no_ids

  pub FunctionRefers : CFunctionType → Ids
  FunctionRefers (function_type result parameters _ _) =
      either (TypeRefers result) (ParametersRefer parameters)

  pub ParametersRefer : CFunctionParameters → Ids
  ParametersRefer no_parameters = no_ids
  ParametersRefer (parameter _ ty rest) = either (TypeRefers ty) (ParametersRefer rest)

-- The identifiers in the types of a list of items.
abbrev pub SomeRefers : {A : Type 0} → (A → CType) → List A → Ids
SomeRefers ty [] = no_ids
SomeRefers ty (x ∷ xs) = either (TypeRefers (ty x)) (SomeRefers ty xs)

abbrev pub OptionRefers : Option CType → Ids
OptionRefers none = no_ids
OptionRefers (some ty) = TypeRefers ty

abbrev pub DeclarationRefers : SourceDeclarationKind → Ids
DeclarationRefers (function f) =
    either (TypeRefers f.return_type) (SomeRefers (λ p. p.ty) f.parameters)
DeclarationRefers (record_ r) = SomeRefers (λ f. f.ty) r.fields
DeclarationRefers (enum e) = OptionRefers e.explicit_underlying_type
DeclarationRefers (type_alias a) = TypeRefers a.target
DeclarationRefers (variable v) = TypeRefers v.ty
DeclarationRefers (unsupported _) = no_ids

abbrev ScopeRefers : EntityScope → Ids
ScopeRefers (owner x) = just x
ScopeRefers _ = no_ids

abbrev IdentityRefers : DeclarationIdentity → Ids
IdentityRefers (named _ scope _) = ScopeRefers scope
IdentityRefers (anonymous scope _ _) = ScopeRefers scope

-- The owner of a declaration, and what its types name.
unfoldable pub Refers : SourceDeclaration → Ids
unfolding TypeRefers
Refers d = either (IdentityRefers d.identity) (DeclarationRefers d.kind)

-- A function on queues that adds the identifiers of a set.
abbrev Adds : (Queue → Queue) → Ids → Type 0
Adds f P =
    (queue : Queue) (id : DeclarationId)
    → (member (f queue) id ≡ true) ↔ ((member queue id ≡ true) ⊎ P id)

Adds-id : Adds (λ queue. queue) no_ids
Adds-id queue id = ground arith

Adds-one : (x : DeclarationId) → Adds (λ queue. queue ++ x ∷ []) (just x)
unfolding member
Adds-one x queue id = ground (arith, member-append queue (x ∷ []) id)

Adds-then :
    {P Q : Ids} (f g : Queue → Queue)
    → Adds f P
    → Adds g Q
    → Adds (λ queue. g (f queue)) (either P Q)
Adds-then f g p q queue id = ground (arith, p queue id, q (f queue) id)

mutual
  unfolding enqueue_type_references TypeRefers

  type-Adds : (t : CType) → Adds (enqueue_type_references t) (TypeRefers t)
  type-Adds (ctype _ _ kind _) = kind-Adds kind

  kind-Adds : (k : CTypeKind) → Adds (enqueue_kind_references k) (KindRefers k)
  kind-Adds (pointer inner) = type-Adds inner
  kind-Adds (array element _ _) = type-Adds element
  kind-Adds (CTypeKind.function f) = function-Adds f
  kind-Adds (alias_ref id) = Adds-one id
  kind-Adds (record_ref id) = Adds-one id
  kind-Adds (enum_ref id) = Adds-one id
  kind-Adds _ = Adds-id

  function-Adds : (f : CFunctionType) → Adds (enqueue_function_references f) (FunctionRefers f)
  function-Adds (function_type result parameters _ _) =
      Adds-then (enqueue_type_references result) (enqueue_parameter_references parameters)
        (type-Adds result) (parameters-Adds parameters)

  parameters-Adds :
      (ps : CFunctionParameters) → Adds (enqueue_parameter_references ps) (ParametersRefer ps)
  parameters-Adds no_parameters = Adds-id
  parameters-Adds (parameter _ ty rest) =
      Adds-then (enqueue_type_references ty) (enqueue_parameter_references rest) (type-Adds ty)
        (parameters-Adds rest)

list-Adds : (ps : List SourceParameter) → Adds (enqueue_parameters ps) (SomeRefers (λ p. p.ty) ps)
unfolding enqueue_parameters
list-Adds [] = Adds-id
list-Adds (p ∷ ps) =
    Adds-then (enqueue_type_references p.ty) (enqueue_parameters ps) (type-Adds p.ty) (list-Adds ps)

fields-Adds : (fs : List SourceField) → Adds (enqueue_fields fs) (SomeRefers (λ f. f.ty) fs)
unfolding enqueue_fields
fields-Adds [] = Adds-id
fields-Adds (f ∷ fs) =
    Adds-then (enqueue_type_references f.ty) (enqueue_fields fs) (type-Adds f.ty) (fields-Adds fs)

underlying-Adds : (o : Option CType) → Adds (enqueue_underlying o) (OptionRefers o)
underlying-Adds none = Adds-id
underlying-Adds (some ty) = type-Adds ty

declaration-Adds :
    (k : SourceDeclarationKind) → Adds (enqueue_declaration_references k) (DeclarationRefers k)
unfolding enqueue_declaration_references
declaration-Adds (function f) =
    Adds-then (enqueue_type_references f.return_type) (enqueue_parameters f.parameters)
      (type-Adds f.return_type) (list-Adds f.parameters)
declaration-Adds (record_ r) = fields-Adds r.fields
declaration-Adds (enum e) = underlying-Adds e.explicit_underlying_type
declaration-Adds (type_alias a) = type-Adds a.target
declaration-Adds (variable v) = type-Adds v.ty
declaration-Adds (unsupported _) = Adds-id

owner-Adds : (i : DeclarationIdentity) → Adds (enqueue_owner i) (IdentityRefers i)
owner-Adds (named _ (owner id) _) = Adds-one id
owner-Adds (anonymous (owner id) _ _) = Adds-one id
owner-Adds (named _ EntityScope.translation_unit _) = Adds-id
owner-Adds (named _ (EntityScope.file _) _) = Adds-id
owner-Adds (anonymous EntityScope.translation_unit _ _) = Adds-id
owner-Adds (anonymous (EntityScope.file _) _ _) = Adds-id

-- What a declaration adds to an empty queue is what it refers to.
pub enqueue_all-Refers :
    (d : SourceDeclaration) (id : DeclarationId)
    → (member (enqueue_all d []) id ≡ true) ↔ Refers d id
unfolding enqueue_all Refers member
enqueue_all-Refers d id = ground (
  arith,
  Adds-then (enqueue_owner d.identity) (enqueue_declaration_references d.kind)
      (owner-Adds d.identity) (declaration-Adds d.kind) [] id,
)
