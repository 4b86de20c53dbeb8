-- ===== src/Contract/Compose/Closure.antt =====
-- `declaration_closure` of src/contract/compose.rs: the declarations that roots reach. The set of
-- those retained is the list of its members, and a queue the list of what waits in it, the front
-- first.
pub mod Queue
pub mod Refers
mod Waiting
pub mod Reach
use parc.Prelude.{ℕ, zero, suc, ◌+◌, List, [], ◌∷◌, ◌++◌, Option, none, some, if◌then◌else◌}
use parc.Prelude.Lists.{length}
use parc.Contract.Checked.{Checked, ok, err}
use parc.Contract.Selection.{DeclarationId, member}
use parc.Contract.Types
use parc.Contract.Types.{
  CType, CTypeKind, CFunctionType, CFunctionParameters, ctype, pointer, array, alias_ref,
  record_ref, enum_ref, function_type, no_parameters, parameter,
}
use parc.Contract.Declarations.{
  DeclarationIdentity, named, anonymous, EntityScope, owner, SourceParameter, SourceField,
  SourceDeclaration, SourceDeclarationKind, function, record_, enum, type_alias, variable,
  unsupported,
}
use parc.Contract.Package.{declaration_in}

abbrev pub Queue : Type 0
Queue = List DeclarationId

unfoldable mutual
  pub enqueue_type_references : CType → Queue → Queue
  enqueue_type_references (ctype _ _ kind _) queue = enqueue_kind_references kind queue

  pub enqueue_kind_references : CTypeKind → Queue → Queue
  enqueue_kind_references (pointer inner) queue = enqueue_type_references inner queue
  enqueue_kind_references (array element _ _) queue = enqueue_type_references element queue
  enqueue_kind_references (CTypeKind.function f) queue = enqueue_function_references f queue
  enqueue_kind_references (alias_ref id) queue = queue ++ id ∷ []
  enqueue_kind_references (record_ref id) queue = queue ++ id ∷ []
  enqueue_kind_references (enum_ref id) queue = queue ++ id ∷ []
  enqueue_kind_references _ queue = queue

  pub enqueue_function_references : CFunctionType → Queue → Queue
  enqueue_function_references (function_type result parameters _ _) queue =
      enqueue_parameter_references parameters (enqueue_type_references result queue)

  pub enqueue_parameter_references : CFunctionParameters → Queue → Queue
  enqueue_parameter_references no_parameters queue = queue
  enqueue_parameter_references (parameter _ ty rest) queue =
      enqueue_parameter_references rest (enqueue_type_references ty queue)

unfoldable pub enqueue_parameters : List SourceParameter → Queue → Queue
unfolding enqueue_type_references
enqueue_parameters [] queue = queue
enqueue_parameters (p ∷ ps) queue = enqueue_parameters ps (enqueue_type_references p.ty queue)

unfoldable pub enqueue_fields : List SourceField → Queue → Queue
unfolding enqueue_type_references
enqueue_fields [] queue = queue
enqueue_fields (f ∷ fs) queue = enqueue_fields fs (enqueue_type_references f.ty queue)

abbrev pub enqueue_underlying : Option CType → Queue → Queue
enqueue_underlying none queue = queue
enqueue_underlying (some ty) queue = enqueue_type_references ty queue

unfoldable pub enqueue_declaration_references : SourceDeclarationKind → Queue → Queue
unfolding enqueue_parameters enqueue_fields enqueue_type_references
enqueue_declaration_references (function f) queue =
    enqueue_parameters f.parameters (enqueue_type_references f.return_type queue)
enqueue_declaration_references (record_ r) queue = enqueue_fields r.fields queue
enqueue_declaration_references (enum e) queue = enqueue_underlying e.explicit_underlying_type queue
enqueue_declaration_references (type_alias a) queue = enqueue_type_references a.target queue
enqueue_declaration_references (variable v) queue = enqueue_type_references v.ty queue
enqueue_declaration_references (unsupported _) queue = queue

abbrev pub enqueue_owner : DeclarationIdentity → Queue → Queue
enqueue_owner (named _ (owner id) _) queue = queue ++ id ∷ []
enqueue_owner (anonymous (owner id) _ _) queue = queue ++ id ∷ []
enqueue_owner _ queue = queue

-- What a declaration adds to the queue: its owner, and what its types refer to.
unfoldable pub enqueue_all : SourceDeclaration → Queue → Queue
unfolding enqueue_declaration_references
enqueue_all d queue = enqueue_declaration_references d.kind (enqueue_owner d.identity queue)

-- The identifier that is missing, or the set.
abbrev pub Closed : Type 0
Closed = Checked DeclarationId (List DeclarationId)

-- A round at an identifier that is not in the set yet.
abbrev pub retain_one :
    (List DeclarationId → Queue → Option Closed)
    → List DeclarationId
    → DeclarationId
    → Queue
    → Option SourceDeclaration
    → Option Closed
retain_one go_on retained id queue none = some (err id)
retain_one go_on retained id queue (some d) = go_on (id ∷ retained) (enqueue_all d queue)

-- The loop, on fuel.
unfoldable pub closure_loop :
    List SourceDeclaration → ℕ → List DeclarationId → Queue → Option Closed
unfolding member enqueue_all declaration_in
closure_loop ds zero retained queue = none
closure_loop ds (suc f) retained [] = some (ok retained)
closure_loop ds (suc f) retained (id ∷ queue) =
    let again = closure_loop ds f retained queue in
    let fresh =
      retain_one (λ r q. closure_loop ds f r q) retained id queue (declaration_in ds id) in
    if member retained id then again else fresh

-- Every declaration adds its references once.
unfoldable pub reference_count : List SourceDeclaration → ℕ
reference_count [] = 0
reference_count (d ∷ ds) = length (enqueue_all d []) + reference_count ds

unfoldable pub declaration_closure : List SourceDeclaration → List DeclarationId → Option Closed
unfolding closure_loop reference_count
declaration_closure ds roots = closure_loop ds (suc (length roots + reference_count ds)) [] roots
