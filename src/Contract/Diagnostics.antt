-- ===== src/Contract/Diagnostics.antt =====
-- src/contract/diagnostics.rs and src/contract/files.rs: source files and ranges, diagnostics, and
-- the support and completeness that follow from them. A `u64` is its number; an identifier or a
-- fingerprint is the number that its 32 bytes spell.
use parc.Prelude.{ℕ, Bool, true, false, ◌&&◌, ◌||◌, List, Option, ◌==◌, leb, if◌then◌else◌}
use parc.Prelude.Lists.{length, take, drop, all}
use parc.Prelude.Text.{Text, bytes, text_eq}
use parc.Contract.Checked.{Checked, ok, err}
use parc.Contract.Selection.{DeclarationId}

abbrev pub FileId : Type 0
FileId = ℕ

abbrev pub Fingerprint : Type 0
Fingerprint = ℕ

pub data SourceFileRole : Type 0 where
  entry user_include system_include builtin generated : SourceFileRole

pub record SourceFile : Type 0 where
  pub id : FileId
  pub logical_path : Text
  pub role : SourceFileRole
  pub content : Fingerprint
  pub byte_len : ℕ
  pub line_starts : List ℕ

pub record SourceRange : Type 0 where
  pub file : FileId
  pub start : ℕ
  pub end : ℕ

pub data InvalidDiagnosticCode : Type 0 where
  invalid_diagnostic_code : InvalidDiagnosticCode

abbrev pub DiagnosticCode : Type 0
DiagnosticCode = Text

abbrev is_digit : ℕ → Bool
is_digit b = leb b'0' b && leb b b'9'

abbrev is_class : Text → Bool
is_class c = text_eq c (bytes "E") || (text_eq c (bytes "W") || text_eq c (bytes "P"))

-- `DiagnosticCode::new`
unfoldable pub diagnostic_code : Text → Checked InvalidDiagnosticCode DiagnosticCode
diagnostic_code value =
    if length value == 10
      && (text_eq (take 5 value) (bytes "PARC-")
          && (is_class (take 1 (drop 5 value)) && all is_digit (drop 6 value)))
    then ok value
    else err invalid_diagnostic_code

pub data DiagnosticStage : Type 0 where
  configuration preprocess parse recovery extract contract : DiagnosticStage

pub data Severity : Type 0 where
  note warning error : Severity

pub record RelatedSource : Type 0 where
  pub message : Text
  pub range : SourceRange

pub data DiagnosticCompletenessImpact : Type 0 where
  informational forces_partial forces_rejected : DiagnosticCompletenessImpact

pub record SourceDiagnostic : Type 0 where
  pub code : DiagnosticCode
  pub stage : DiagnosticStage
  pub severity : Severity
  pub completeness_impact : DiagnosticCompletenessImpact
  pub message : Text
  pub range : Option SourceRange
  pub related : List RelatedSource
  pub declaration : Option DeclarationId
  pub target : Fingerprint

pub data SupportStatus : Type 0 where
  supported : SupportStatus
  partial unsupported : DiagnosticCode → Text → SupportStatus

abbrev pub is_supported : SupportStatus → Bool
is_supported supported = true
is_supported _ = false

pub record CompletenessReason : Type 0 where
  pub code : DiagnosticCode
  pub message : Text
  pub range : Option SourceRange

pub data Completeness : Type 0 where
  complete : Completeness
  partial rejected : List CompletenessReason → Completeness
