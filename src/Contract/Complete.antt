-- ===== src/Contract/Complete.antt =====
-- src/contract/complete.rs: the proof of completeness of a selection.
pub mod Visit
pub mod Blockers
mod Equal
pub mod Walks
pub mod Rounds
pub mod Closure
pub mod Slack
pub mod Fuel
pub mod Proved
mod Tests
use parc.Prelude.{
  ℕ, zero, suc, ◌+◌, Bool, true, false, ◌&&◌, ◌||◌, not, List, [], ◌∷◌, ◌++◌, Option, none, some,
  if◌then◌else◌,
}
use Prim.Native.Nat.{Ordering}
use parc.Prelude.Order.{same}
use parc.Prelude.Text.{Text, text_eq}
use parc.Prelude.Lists.{length}
use parc.Contract.Compose.Closure.{enqueue_all}
use parc.Contract.Checked.{Checked, ok, err}
use parc.Contract.Selection.{DeclarationId, Selection, all_supported, only, opaque_only}
use parc.Contract.Diagnostics
use parc.Contract.Diagnostics.{
  DiagnosticCode, SourceDiagnostic, DiagnosticStage, SupportStatus, CompletenessReason,
  is_supported, supported, partial, unsupported,
}
use parc.Contract.Declarations
use parc.Contract.Declarations.{
  SourceDeclaration, SourceDeclarationKind, SourceMacro, RecordCompleteness, record_,
}
use parc.Contract.Package.{SourcePackageInput, declaration_in}
use parc.Contract.Compose.Reason.{compare_text, is_forcing, reason_of}
use parc.Contract.Complete.Visit.{
  is_opaque, CompletionBlocker, package_incomplete, missing_declaration, opaque_root_is_not_record,
  Need, opaque_sufficient, definition, NeedMap, need_of, Walk, enqueue,
  validate_declaration_closure,
}
use parc.Contract.Complete.Blockers.{sort_blockers, dedup}
use parc.Contract.Complete.Equal.{CompletionBlocker-discrete}

pub data ClosureRequirement : Type 0 where
  opaque_ definition_ : ClosureRequirement

pub record DeclarationClosureEntry : Type 0 where
  pub declaration : DeclarationId
  pub requirement : ClosureRequirement

pub record CompleteSourcePackage (Target : Type 0) : Type 0 where
  pub source : SourcePackageInput Target
  pub selection : Selection
  pub declaration_closure : List DeclarationClosureEntry

-- The codes that the support of a macro records.
unfoldable pub attributed : List SourceMacro → List DiagnosticCode
attributed [] = []
attributed (m ∷ ms) =
    let rest = attributed ms in
    elim m.support [
      | supported ↦ rest
      | partial code _ ↦ code ∷ rest
      | SupportStatus.unsupported code _ ↦ code ∷ rest
    ]

unfoldable pub contains_code : List DiagnosticCode → DiagnosticCode → Bool
contains_code [] code = false
contains_code (c ∷ cs) code = text_eq c code || contains_code cs code

abbrev is_recovery : DiagnosticStage → Bool
is_recovery DiagnosticStage.recovery = true
is_recovery _ = false

abbrev is_none : Option DeclarationId → Bool
is_none none = true
is_none (some _) = false

-- The reasons that name neither a declaration nor a macro.
unfoldable pub package_scoped :
    List DiagnosticCode → List SourceDiagnostic → List CompletenessReason
unfolding contains_code
package_scoped codes [] = []
package_scoped codes (d ∷ ds) =
    let rest = package_scoped codes ds in
    if is_forcing d.completeness_impact
      && (is_none d.declaration && (not (is_recovery d.stage) && not (contains_code codes d.code)))
    then reason_of d ∷ rest
    else rest

abbrev blocked_by : List CompletenessReason → List CompletionBlocker
blocked_by [] = []
blocked_by (r ∷ rs) = package_incomplete (r ∷ rs) ∷ []

unfoldable pub package_blockers :
    {Target : Type 0} → SourcePackageInput Target → List CompletionBlocker
unfolding attributed package_scoped
package_blockers source = elim source.completeness [
  | Diagnostics.complete ↦ []
  | Diagnostics.rejected reasons ↦ package_incomplete reasons ∷ []
  | Diagnostics.partial _ ↦
      blocked_by (package_scoped (attributed source.macros) source.diagnostics)
]

abbrev root_need : SourceDeclarationKind → Need
root_need (record_ r) = elim r.completeness [
  | RecordCompleteness.incomplete ↦ opaque_sufficient
  | RecordCompleteness.complete ↦ definition
]
root_need _ = definition

unfoldable pub supported_roots : List SourceDeclaration → NeedMap
supported_roots [] = []
supported_roots (d ∷ ds) =
    let rest = supported_roots ds in
    if is_supported d.support then (d.id, root_need d.kind) ∷ rest else rest

unfoldable pub with_need : Need → List DeclarationId → NeedMap
with_need need [] = []
with_need need (id ∷ ids) = (id, need) ∷ with_need need ids

unfoldable pub needed_roots : List SourceDeclaration → Selection → NeedMap
unfolding supported_roots with_need
needed_roots ds all_supported = supported_roots ds
needed_roots ds (only ids) = with_need definition ids
needed_roots ds (opaque_only ids) = with_need opaque_sufficient ids

unfoldable pub enqueue_roots : NeedMap → Walk → Walk
unfolding enqueue
enqueue_roots [] v = v
enqueue_roots ((id, need) ∷ rest) v = enqueue_roots rest (enqueue id need v)

abbrev is_opaque_only : Selection → Bool
is_opaque_only (opaque_only _) = true
is_opaque_only _ = false

abbrev is_record : SourceDeclarationKind → Bool
is_record (record_ _) = true
is_record _ = false

abbrev pub current : Option Need → Need → Need
current none need = need
current (some n) need = n

abbrev block : CompletionBlocker → Walk → Walk
block b v = record v { blockers = v.blockers ++ b ∷ [] }

abbrev pub visit_found :
    Selection → DeclarationId → Need → Need → Option SourceDeclaration → Walk → Walk
visit_found selected id need now none v = block (missing_declaration id) v
visit_found selected id need now (some d) v =
    if is_opaque_only selected && (is_opaque need && not (is_record d.kind))
    then block (opaque_root_is_not_record id) v
    else validate_declaration_closure d now v

-- A round with an entry that was taken off the queue.
unfoldable pub visit_entry : List SourceDeclaration → Selection → DeclarationId → Need → Walk → Walk
unfolding need_of validate_declaration_closure declaration_in
visit_entry ds selected id need v =
    let now = current (need_of v.required id) need in
    if is_opaque need && not (is_opaque now)
    then v
    else visit_found selected id need now (declaration_in ds id) v

-- The front of the queue, and the rest of the loop.
abbrev pub next_round :
    (Walk → Option Walk)
    → (DeclarationId → Need → Walk → Walk)
    → Walk
    → List (DeclarationId × Need)
    → Option Walk
next_round go_on visit v [] = some v
next_round go_on visit v ((id, need) ∷ queue) = go_on (visit id need (record v { queue = queue }))

-- The loop, on fuel.
unfoldable pub visit_loop : List SourceDeclaration → Selection → ℕ → Walk → Option Walk
unfolding visit_entry
visit_loop ds selected zero v = none
visit_loop ds selected (suc f) v =
    next_round (λ w. visit_loop ds selected f w) (λ id need w. visit_entry ds selected id need w) v
      v.queue

unfoldable pub all_references : List SourceDeclaration → List DeclarationId
unfolding enqueue_all
all_references [] = []
all_references (d ∷ ds) = enqueue_all d [] ++ all_references ds

unfoldable pub root_ids : NeedMap → List DeclarationId
root_ids [] = []
root_ids ((id, _) ∷ rest) = id ∷ root_ids rest

-- The identifiers that may be asked for, each with two needs.
unfoldable pub askable : List SourceDeclaration → Selection → List DeclarationId
unfolding all_references root_ids needed_roots
askable ds selected = root_ids (needed_roots ds selected) ++ all_references ds

unfoldable pub completion_fuel : List SourceDeclaration → Selection → ℕ
unfolding askable
completion_fuel ds selected = suc (length (askable ds selected) + length (askable ds selected))

abbrev requirement_of : Need → ClosureRequirement
requirement_of opaque_sufficient = opaque_
requirement_of definition = definition_

unfoldable pub closure_entries : NeedMap → List DeclarationClosureEntry
closure_entries [] = []
closure_entries ((id, need) ∷ rest) =
    record { declaration = id; requirement = requirement_of need } ∷ closure_entries rest

-- The text of a blocker, which a derive macro makes, is a parameter.
module _ {Target : Type 0} (display : CompletionBlocker → Text) where
  abbrev pub conclude :
      SourcePackageInput Target
      → Selection
      → Walk
      → List CompletionBlocker
      → Checked (List CompletionBlocker) (CompleteSourcePackage Target)
  conclude source selected v [] = ok (record {
    source = source;
    selection = selected;
    declaration_closure = closure_entries v.required;
  })
  conclude source selected v (b ∷ bs) = err (b ∷ bs)

  abbrev pub finish :
      SourcePackageInput Target
      → Selection
      → Option Walk
      → Option (Checked (List CompletionBlocker) (CompleteSourcePackage Target))
  finish source selected none = none
  finish source selected (some v) =
      some (conclude source selected v (dedup (sort_blockers display v.blockers)))

  abbrev pub start : SourcePackageInput Target → Selection → Walk
  start source selected =
      enqueue_roots (needed_roots source.declarations selected)
        (record { required = []; queue = []; blockers = package_blockers source })

  -- None if the fuel of the loop does not suffice.
  unfoldable pub into_complete :
      SourcePackageInput Target
      → Selection
      → Option (Checked (List CompletionBlocker) (CompleteSourcePackage Target))
  unfolding visit_loop sort_blockers dedup closure_entries enqueue_roots needed_roots
      package_blockers completion_fuel
  into_complete source selected = finish source selected (
      visit_loop source.declarations selected (completion_fuel source.declarations selected)
        (start source selected))
