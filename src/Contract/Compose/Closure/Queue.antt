-- ===== src/Contract/Compose/Closure/Queue.antt =====
-- What the functions `enqueue_…` of src/contract/compose.rs add to the queue: it goes to the end,
-- and does not depend on what waits.
use parc.Prelude.{
  ◌≡◌, refl, sym, List, [], ◌∷◌, ◌++◌, Option, none, some, append_assoc, append-nil, ◌||◌, arith,
}
use parc.Contract.Selection.{DeclarationId, member}
use parc.Contract.Types.{
  CType, CTypeKind, CFunctionType, CFunctionParameters, ctype, function_type, no_parameters,
  parameter, pointer, array, alias_ref, record_ref, enum_ref,
}
use parc.Contract.Declarations.{
  SourceParameter, SourceField, SourceDeclaration, SourceDeclarationKind, DeclarationIdentity,
  named, anonymous, EntityScope, owner, function, record_, enum, type_alias, variable, unsupported,
}
use parc.Contract.Compose.Closure.{
  Queue, enqueue_type_references, enqueue_kind_references, enqueue_function_references,
  enqueue_parameter_references, enqueue_parameters, enqueue_fields, enqueue_declaration_references,
  enqueue_owner, enqueue_underlying, enqueue_all,
}

-- A function that appends something of its own.
abbrev pub Appends : (Queue → Queue) → Type 0
Appends f = (queue : Queue) → f queue ≡ queue ++ f []

Appends-id : Appends (λ queue. queue)
Appends-id queue = sym (append-nil queue)

Appends-one : (id : DeclarationId) → Appends (λ queue. queue ++ id ∷ [])
Appends-one id queue = refl

Appends-then : (f g : Queue → Queue) → Appends f → Appends g → Appends (λ queue. g (f queue))
Appends-then f g p q queue = rw (q (f queue), q (f []), p queue, append_assoc queue (f []) (g []))

mutual
  unfolding enqueue_type_references

  type-Appends : (t : CType) → Appends (enqueue_type_references t)
  type-Appends (ctype _ _ kind _) = kind-Appends kind

  kind-Appends : (k : CTypeKind) → Appends (enqueue_kind_references k)
  kind-Appends (pointer inner) = type-Appends inner
  kind-Appends (array element _ _) = type-Appends element
  kind-Appends (CTypeKind.function f) = function-Appends f
  kind-Appends (alias_ref id) = Appends-one id
  kind-Appends (record_ref id) = Appends-one id
  kind-Appends (enum_ref id) = Appends-one id
  kind-Appends _ = Appends-id

  function-Appends : (f : CFunctionType) → Appends (enqueue_function_references f)
  function-Appends (function_type result parameters _ _) =
      Appends-then (enqueue_type_references result) (enqueue_parameter_references parameters)
        (type-Appends result) (parameters-Appends parameters)

  parameters-Appends : (ps : CFunctionParameters) → Appends (enqueue_parameter_references ps)
  parameters-Appends no_parameters = Appends-id
  parameters-Appends (parameter _ ty rest) =
      Appends-then (enqueue_type_references ty) (enqueue_parameter_references rest)
        (type-Appends ty) (parameters-Appends rest)

parameters_list-Appends : (ps : List SourceParameter) → Appends (enqueue_parameters ps)
unfolding enqueue_parameters
parameters_list-Appends [] = Appends-id
parameters_list-Appends (p ∷ ps) =
    Appends-then (enqueue_type_references p.ty) (enqueue_parameters ps) (type-Appends p.ty)
      (parameters_list-Appends ps)

fields-Appends : (fs : List SourceField) → Appends (enqueue_fields fs)
unfolding enqueue_fields
fields-Appends [] = Appends-id
fields-Appends (f ∷ fs) =
    Appends-then (enqueue_type_references f.ty) (enqueue_fields fs) (type-Appends f.ty)
      (fields-Appends fs)

underlying-Appends : (o : Option CType) → Appends (enqueue_underlying o)
underlying-Appends none = Appends-id
underlying-Appends (some ty) = type-Appends ty

declaration-Appends : (k : SourceDeclarationKind) → Appends (enqueue_declaration_references k)
unfolding enqueue_declaration_references
declaration-Appends (function f) =
    Appends-then (enqueue_type_references f.return_type) (enqueue_parameters f.parameters)
      (type-Appends f.return_type) (parameters_list-Appends f.parameters)
declaration-Appends (record_ r) = fields-Appends r.fields
declaration-Appends (enum e) = underlying-Appends e.explicit_underlying_type
declaration-Appends (type_alias a) = type-Appends a.target
declaration-Appends (variable v) = type-Appends v.ty
declaration-Appends (unsupported _) = Appends-id

owner-Appends : (i : DeclarationIdentity) → Appends (enqueue_owner i)
owner-Appends (named _ (owner id) _) = Appends-one id
owner-Appends (anonymous (owner id) _ _) = Appends-one id
owner-Appends (named _ EntityScope.translation_unit _) = Appends-id
owner-Appends (named _ (EntityScope.file _) _) = Appends-id
owner-Appends (anonymous EntityScope.translation_unit _ _) = Appends-id
owner-Appends (anonymous (EntityScope.file _) _ _) = Appends-id

pub enqueue_all-Appends : (d : SourceDeclaration) → Appends (enqueue_all d)
unfolding enqueue_all
enqueue_all-Appends d =
    Appends-then (enqueue_owner d.identity) (enqueue_declaration_references d.kind)
      (owner-Appends d.identity) (declaration-Appends d.kind)

pub member-append :
    (xs ys : List DeclarationId) (id : DeclarationId)
    → member (xs ++ ys) id ≡ (member xs id || member ys id)
unfolding member
member-append [] ys id = refl
member-append (x ∷ xs) ys id = ground (arith, member-append xs ys id)
