-- ===== src/Contract/Compose/Reason.antt =====
-- `completeness_from_diagnostics` of src/contract/compose.rs, and the derived order of diagnostics
-- and reasons.
pub mod Forced
use Prim.Native.Nat.{compare, Ordering}
use parc.Prelude.{ℕ, Bool, true, false, ◌||◌, List, [], ◌∷◌, Option, map, if◌then◌else◌}
use parc.Prelude.Lists.{any}
use parc.Prelude.Order.{then_with, compare_list, compare_option, to_set}
use parc.Prelude.Text.{Text}
use parc.Contract.Diagnostics
use parc.Contract.Diagnostics.{
  SourceRange, RelatedSource, DiagnosticStage, Severity, DiagnosticCompletenessImpact,
  SourceDiagnostic, CompletenessReason, Completeness, complete, partial, rejected,
}

abbrev pub compare_text : Text → Text → Ordering
compare_text a b = compare_list compare a b

abbrev pub compare_range : SourceRange → SourceRange → Ordering
compare_range a b =
    then_with (compare a.file b.file) (then_with (compare a.start b.start) (compare a.end b.end))

abbrev pub compare_reason : CompletenessReason → CompletenessReason → Ordering
compare_reason a b =
    then_with (compare_text a.code b.code)
      (then_with (compare_text a.message b.message) (compare_option compare_range a.range b.range))

abbrev compare_related : RelatedSource → RelatedSource → Ordering
compare_related a b = then_with (compare_text a.message b.message) (compare_range a.range b.range)

-- The positions of the variants.
abbrev stage_tag : DiagnosticStage → ℕ
stage_tag DiagnosticStage.configuration = 0
stage_tag DiagnosticStage.preprocess = 1
stage_tag DiagnosticStage.parse = 2
stage_tag DiagnosticStage.recovery = 3
stage_tag DiagnosticStage.extract = 4
stage_tag DiagnosticStage.contract = 5

abbrev severity_tag : Severity → ℕ
severity_tag Severity.note = 0
severity_tag Severity.warning = 1
severity_tag Severity.error = 2

abbrev pub impact_tag : DiagnosticCompletenessImpact → ℕ
impact_tag DiagnosticCompletenessImpact.informational = 0
impact_tag DiagnosticCompletenessImpact.forces_partial = 1
impact_tag DiagnosticCompletenessImpact.forces_rejected = 2

-- The fields in their order.
abbrev pub compare_diagnostic : SourceDiagnostic → SourceDiagnostic → Ordering
compare_diagnostic a b = then_with (compare_text a.code b.code) (
    then_with (compare (stage_tag a.stage) (stage_tag b.stage)) (
      then_with (compare (severity_tag a.severity) (severity_tag b.severity)) (
        then_with (compare (impact_tag a.completeness_impact) (impact_tag b.completeness_impact)) (
          then_with (compare_text a.message b.message) (
            then_with (compare_option compare_range a.range b.range) (
              then_with (compare_list compare_related a.related b.related) (
                then_with (compare_option compare a.declaration b.declaration)
                  (compare a.target b.target))))))))

abbrev pub is_forcing : DiagnosticCompletenessImpact → Bool
is_forcing DiagnosticCompletenessImpact.informational = false
is_forcing _ = true

abbrev pub forces_rejection : SourceDiagnostic → Bool
forces_rejection d = elim d.completeness_impact [
  | DiagnosticCompletenessImpact.forces_rejected ↦ true
  | _ ↦ false
]

abbrev pub reason_of : SourceDiagnostic → CompletenessReason
reason_of d = record { code = d.code; message = d.message; range = d.range }

-- The reasons of the diagnostics that force something, in their order.
unfoldable pub forcing_reasons : List SourceDiagnostic → List CompletenessReason
forcing_reasons [] = []
forcing_reasons (d ∷ ds) =
    let rest = forcing_reasons ds in
    if is_forcing d.completeness_impact then reason_of d ∷ rest else rest

abbrev is_empty : List CompletenessReason → Bool
is_empty [] = true
is_empty (_ ∷ _) = false

abbrev pub verdict : Bool → List CompletenessReason → Completeness
verdict rejects reasons =
    if rejects
    then rejected reasons
    else if is_empty reasons
    then complete
    else Completeness.partial reasons

unfoldable pub completeness_from_diagnostics : List SourceDiagnostic → Completeness
unfolding forcing_reasons to_set
completeness_from_diagnostics ds =
    verdict (any forces_rejection ds) (to_set compare_reason (forcing_reasons ds))
