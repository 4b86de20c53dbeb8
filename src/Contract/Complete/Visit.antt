-- ===== src/Contract/Complete/Visit.antt =====
-- What `into_complete` of src/contract/complete.rs does with one declaration:
-- `validate_declaration_closure`, `visit_type` and what they call. What these change is a record: the
-- need of each declaration, the queue, the front first, and the blockers.
pub mod Effect
pub mod Wants
pub mod Requires
pub mod Refers
use parc.Prelude.{
  ℕ, suc, ◌+◌, Bool, true, false, List, [], ◌∷◌, ◌++◌, Option, none, some, ◌==◌, ltb, if◌then◌else◌,
}
use parc.Prelude.Text.{Text, bytes}
use parc.Prelude.Decimal.{decimal}
use parc.Contract.Selection.{DeclarationId}
use parc.Contract.Diagnostics.{CompletenessReason, SupportStatus, supported, partial}
use parc.Contract.Types
use parc.Contract.Types.{
  CType, CTypeKind, CFunctionType, CFunctionParameters, CallingConvention, ArrayBound,
  SourceAttribute, AttributeDisposition, ctype, pointer, array, alias_ref, record_ref, enum_ref,
  function_type, no_parameters, parameter,
}
use parc.Contract.Declarations
use parc.Contract.Declarations.{
  SourceDeclaration, SourceDeclarationKind, DeclarationOccurrence, SourceParameter, SourceField,
  SourceEnumVariant, RecordCompleteness, function, record_, enum, type_alias, variable,
}

pub data CompletionBlocker : Type 0 where
  package_incomplete : List CompletenessReason → CompletionBlocker
  missing_declaration incomplete_record opaque_root_is_not_record :
      DeclarationId → CompletionBlocker
  unsupported : DeclarationId → Text → Text → CompletionBlocker

-- The derived order: `opaque_sufficient` is below `definition`.
pub data Need : Type 0 where
  opaque_sufficient definition : Need

abbrev pub below : Need → Need → Bool
below opaque_sufficient definition = true
below _ _ = false

-- The map of needs is the list of its entries in the order of their keys.
abbrev pub NeedMap : Type 0
NeedMap = List (DeclarationId × Need)

unfoldable pub need_of : NeedMap → DeclarationId → Option Need
need_of [] id = none
need_of ((x, n) ∷ rest) id = let later = need_of rest id in if x == id then some n else later

unfoldable pub set_need : NeedMap → DeclarationId → Need → NeedMap
set_need [] id need = (id, need) ∷ []
set_need ((x, n) ∷ rest) id need =
    let later = set_need rest id need in
    if ltb id x
    then (id, need) ∷ (x, n) ∷ rest
    else if x == id
    then (id, need) ∷ rest
    else (x, n) ∷ later

pub record Walk : Type 0 where
  pub required : NeedMap
  pub queue : List (DeclarationId × Need)
  pub blockers : List CompletionBlocker

abbrev pub push : DeclarationId → Need → Walk → Walk
push id need v = record v {
  required = set_need v.required id need;
  queue = v.queue ++ (id, need) ∷ [];
}

abbrev pub enqueue_at : Option Need → DeclarationId → Need → Walk → Walk
enqueue_at none id need v = push id need v
enqueue_at (some existing) id need v = if below existing need then push id need v else v

unfoldable pub enqueue : DeclarationId → Need → Walk → Walk
unfolding need_of set_need
enqueue id need v = enqueue_at (need_of v.required id) id need v

abbrev pub reject : DeclarationId → Text → Text → Walk → Walk
reject id path reason v = record v {
  blockers = v.blockers ++ CompletionBlocker.unsupported id path reason ∷ [];
}

abbrev pub reject_status : DeclarationId → Text → SupportStatus → Walk → Walk
reject_status id path supported v = v
reject_status id path (partial _ reason) v = reject id path reason v
reject_status id path (SupportStatus.unsupported _ reason) v = reject id path reason v

-- `format!("{path}[{index}]")`
abbrev pub indexed : Text → ℕ → Text
indexed path index = path ++ (b'[' ∷ decimal index ++ bytes "]")

abbrev pub relevant : AttributeDisposition → Bool
relevant AttributeDisposition.unsupported_abi_relevant = true
relevant _ = false

-- The loop, from an index on.
unfoldable pub reject_attributes : DeclarationId → Text → ℕ → List SourceAttribute → Walk → Walk
unfolding decimal
reject_attributes id path index [] v = v
reject_attributes id path index (a ∷ rest) v =
    reject_attributes id path (index + 1) rest
      (if relevant a.disposition then reject id (indexed path index) a.spelling v else v)

abbrev pub reject_convention : DeclarationId → Text → CallingConvention → Walk → Walk
reject_convention id path (CallingConvention.unsupported spelling) v = reject id path spelling v
reject_convention id path _ v = v

abbrev pub reject_bound : DeclarationId → Text → ArrayBound → Walk → Walk
reject_bound id path (ArrayBound.invalid spelling _) v = reject id path spelling v
reject_bound id path _ v = v

abbrev pub need_behind : Bool → Need
need_behind true = opaque_sufficient
need_behind false = definition

unfoldable mutual
  unfolding enqueue decimal

  pub visit_type : DeclarationId → Text → CType → Bool → Walk → Walk
  visit_type id path (ctype _ _ kind support) behind_pointer v =
      visit_kind id path kind behind_pointer (reject_status id (path ++ bytes ".support") support v)

  pub visit_kind : DeclarationId → Text → CTypeKind → Bool → Walk → Walk
  visit_kind id path (pointer pointee) behind_pointer v =
      visit_type id (path ++ bytes ".pointee") pointee true v
  visit_kind id path (array element bound _) behind_pointer v =
      visit_type id (path ++ bytes ".element") element behind_pointer
        (reject_bound id (path ++ bytes ".bound") bound v)
  visit_kind id path (CTypeKind.function f) behind_pointer v = visit_function id path f v
  visit_kind id path (alias_ref target) behind_pointer v =
      enqueue target (need_behind behind_pointer) v
  visit_kind id path (enum_ref target) behind_pointer v = enqueue target definition v
  visit_kind id path (record_ref target) behind_pointer v =
      enqueue target (need_behind behind_pointer) v
  visit_kind id path (CTypeKind.unsupported _ spelling) behind_pointer v = reject id path spelling v
  visit_kind id path _ behind_pointer v = v

  pub visit_function : DeclarationId → Text → CFunctionType → Walk → Walk
  visit_function id path (function_type result parameters _ convention) v =
      visit_parameters id path 0 parameters (
        visit_type id (path ++ bytes ".return_type") result false
          (reject_convention id (path ++ bytes ".calling_convention") convention v))

  pub visit_parameters : DeclarationId → Text → ℕ → CFunctionParameters → Walk → Walk
  visit_parameters id path index no_parameters v = v
  visit_parameters id path index (parameter _ ty rest) v =
      visit_parameters id path (index + 1) rest
        (visit_type id (indexed (path ++ bytes ".parameters") index) ty false v)

-- The loops over the parts of a declaration, from an index on.
unfoldable pub reject_occurrences : DeclarationId → ℕ → List DeclarationOccurrence → Walk → Walk
unfolding reject_attributes
reject_occurrences id index [] v = v
reject_occurrences id index (o ∷ rest) v = reject_occurrences id (index + 1) rest (
    reject_attributes id (indexed (bytes "occurrences") index ++ bytes ".attributes") 0 o.attributes
      v)

-- A part: its support, then its attributes.
unfoldable pub reject_part :
    DeclarationId → Text → SupportStatus → List SourceAttribute → Walk → Walk
unfolding reject_attributes
reject_part id path support attributes v =
    reject_attributes id (path ++ bytes ".attributes") 0 attributes
      (reject_status id (path ++ bytes ".support") support v)

unfoldable pub visit_source_parameters : DeclarationId → ℕ → List SourceParameter → Walk → Walk
unfolding reject_part visit_type
visit_source_parameters id index [] v = v
visit_source_parameters id index (p ∷ rest) v =
    let path = indexed (bytes "kind.function.parameters") index in
    visit_source_parameters id (index + 1) rest (
      visit_type id (path ++ bytes ".ty") p.ty false (reject_part id path p.support p.attributes v))

unfoldable pub visit_fields : DeclarationId → ℕ → List SourceField → Walk → Walk
unfolding reject_part visit_type
visit_fields id index [] v = v
visit_fields id index (f ∷ rest) v =
    let path = indexed (bytes "kind.record.fields") index in
    visit_fields id (index + 1) rest (
      visit_type id (path ++ bytes ".ty") f.ty false (reject_part id path f.support f.attributes v))

unfoldable pub visit_variants : DeclarationId → ℕ → List SourceEnumVariant → Walk → Walk
unfolding reject_part
visit_variants id index [] v = v
visit_variants id index (e ∷ rest) v =
    visit_variants id (index + 1) rest
      (reject_part id (indexed (bytes "kind.enum.variants") index) e.support e.attributes v)

abbrev pub visit_underlying : DeclarationId → Option CType → Walk → Walk
visit_underlying id none v = v
visit_underlying id (some ty) v =
    visit_type id (bytes "kind.enum.explicit_underlying_type") ty false v

abbrev pub require_complete : DeclarationId → RecordCompleteness → Walk → Walk
require_complete id RecordCompleteness.complete v = v
require_complete id RecordCompleteness.incomplete v = record v {
  blockers = v.blockers ++ incomplete_record id ∷ [];
}

abbrev pub is_opaque : Need → Bool
is_opaque opaque_sufficient = true
is_opaque definition = false

unfoldable pub visit_declaration_kind : DeclarationId → Need → SourceDeclarationKind → Walk → Walk
unfolding visit_source_parameters visit_fields visit_variants visit_type
visit_declaration_kind id need (function f) v = visit_source_parameters id 0 f.parameters (
    visit_type id (bytes "kind.function.return_type") f.return_type false
      (reject_convention id (bytes "kind.function.calling_convention") f.calling_convention v))
visit_declaration_kind id opaque_sufficient (record_ r) v = v
visit_declaration_kind id definition (record_ r) v =
    visit_fields id 0 r.fields (require_complete id r.completeness v)
visit_declaration_kind id need (enum e) v =
    visit_variants id 0 e.variants (visit_underlying id e.explicit_underlying_type v)
visit_declaration_kind id need (type_alias a) v =
    visit_type id (bytes "kind.type_alias.target") a.target (is_opaque need) v
visit_declaration_kind id need (variable x) v =
    visit_type id (bytes "kind.variable.ty") x.ty false v
visit_declaration_kind id need (SourceDeclarationKind.unsupported u) v =
    reject id (bytes "kind.unsupported") u.spelling v

unfoldable pub validate_declaration_closure : SourceDeclaration → Need → Walk → Walk
unfolding reject_occurrences visit_declaration_kind
validate_declaration_closure d need v =
    visit_declaration_kind d.id need d.kind
      (reject_occurrences d.id 0 d.occurrences (reject_status d.id (bytes "support") d.support v))
