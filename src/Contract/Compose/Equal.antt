-- ===== src/Contract/Compose/Equal.antt =====
-- The derived `==` of the records that src/contract/compose.rs compares.
use native.Mathlib.Decide.{ℕ_discrete}
use parc.Prelude.{ℕ, List, Option}
use parc.Prelude.Text.{Text}
use parc.Contract.Diagnostics.{SourceFile, SupportStatus, DiagnosticCompletenessImpact}
use parc.Contract.Declarations.{
  DeclarationIdentity, SourceName, Linkage, Visibility, SourceDeclarationKind,
  DeclarationOccurrence, MacroForm, MacroCategory, MacroValue, MacroOccurrence,
}
use parc.Contract.Package.{IncludeSearchEntry, DefineEvent, PreprocessorIdentity, EnvironmentInputs}

unfoldable pub Text-discrete : Discrete Text
Text-discrete = hlevel (ℕ_discrete)

unfoldable pub texts-discrete : Discrete (List Text)
texts-discrete = hlevel (ℕ_discrete)

unfoldable pub numbers-discrete : Discrete (List ℕ)
numbers-discrete = hlevel (ℕ_discrete)

unfoldable pub SourceFile-discrete : Discrete SourceFile
SourceFile-discrete = hlevel (ℕ_discrete)

unfoldable pub SupportStatus-discrete : Discrete SupportStatus
SupportStatus-discrete = hlevel (ℕ_discrete)

unfoldable pub Impact-discrete : Discrete DiagnosticCompletenessImpact
Impact-discrete = hlevel (ℕ_discrete)

unfoldable pub DeclarationIdentity-discrete : Discrete DeclarationIdentity
DeclarationIdentity-discrete = hlevel (ℕ_discrete)

unfoldable pub name-discrete : Discrete (Option SourceName)
name-discrete = hlevel (ℕ_discrete)

unfoldable pub Linkage-discrete : Discrete Linkage
Linkage-discrete = hlevel (ℕ_discrete)

unfoldable pub Visibility-discrete : Discrete Visibility
Visibility-discrete = hlevel (ℕ_discrete)

unfoldable pub SourceDeclarationKind-discrete : Discrete SourceDeclarationKind
SourceDeclarationKind-discrete = hlevel (ℕ_discrete)

unfoldable pub DeclarationOccurrence-discrete : Discrete DeclarationOccurrence
DeclarationOccurrence-discrete = hlevel (ℕ_discrete)

unfoldable pub MacroForm-discrete : Discrete MacroForm
MacroForm-discrete = hlevel (ℕ_discrete)

unfoldable pub MacroCategory-discrete : Discrete MacroCategory
MacroCategory-discrete = hlevel (ℕ_discrete)

unfoldable pub value-discrete : Discrete (Option MacroValue)
value-discrete = hlevel (ℕ_discrete)

unfoldable pub MacroOccurrence-discrete : Discrete MacroOccurrence
MacroOccurrence-discrete = hlevel (ℕ_discrete)

unfoldable pub include_search-discrete : Discrete (List IncludeSearchEntry)
include_search-discrete = hlevel (ℕ_discrete)

unfoldable pub define_events-discrete : Discrete (List DefineEvent)
define_events-discrete = hlevel (ℕ_discrete)

unfoldable pub PreprocessorIdentity-discrete : Discrete PreprocessorIdentity
PreprocessorIdentity-discrete = hlevel (ℕ_discrete)

unfoldable pub EnvironmentInputs-discrete : Discrete EnvironmentInputs
EnvironmentInputs-discrete = hlevel (ℕ_discrete)
