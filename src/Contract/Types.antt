-- ===== src/Contract/Types.antt =====
-- src/contract/types.rs: the types of C as the contract holds them. A box is what it holds, and the
-- parameters of a function type are a list of their own.
use parc.Prelude.{ℕ, Bool, List, Option}
use parc.Prelude.Text.{Text}
use parc.Contract.Selection.{DeclarationId}
use parc.Contract.Diagnostics.{DiagnosticCode, SupportStatus, SourceRange}

pub record TypeQualifiers : Type 0 where
  pub is_const : Bool
  pub is_volatile : Bool
  pub is_restrict : Bool
  pub is_atomic : Bool

pub data Nullability : Type 0 where
  unspecified nonnull nullable null_unspecified : Nullability

pub data CharTypeSignedness : Type 0 where
  plain signed unsigned : CharTypeSignedness

pub data Signedness : Type 0 where
  signed unsigned : Signedness

pub data BitIntWidth : Type 0 where
  known : ℕ → BitIntWidth
  expression : Text → BitIntWidth

pub data CIntegerType : Type 0 where
  char : CharTypeSignedness → CIntegerType
  short int long long_long int128 : Signedness → CIntegerType
  bit_int : Signedness → BitIntWidth → CIntegerType

pub data Ts18661Format : Type 0 where
  binary_interchange binary_extended decimal_interchange decimal_extended : Ts18661Format

pub data CFloatingType : Type 0 where
  float double long_double float128 : CFloatingType
  ts18661 : Ts18661Format → ℕ → CFloatingType

pub data ArrayMinimumBound : Type 0 where
  fixed : ℕ → ArrayMinimumBound
  variable : Text → ArrayMinimumBound

pub data ArrayBound : Type 0 where
  fixed : ℕ → ArrayBound
  incomplete flexible : ArrayBound
  variable : Text → ArrayBound
  static_minimum : ArrayMinimumBound → ArrayBound
  invalid : Text → DiagnosticCode → ArrayBound

pub data FunctionPrototype : Type 0 where
  prototyped : Bool → FunctionPrototype
  unspecified_parameters : FunctionPrototype

pub data CallingConvention : Type 0 where
  c cdecl stdcall fastcall vectorcall thiscall sys_v64 win64 aapcs : CallingConvention
  unsupported : Text → CallingConvention

pub data UnsupportedTypeCategory : Type 0 where
  typeof vector block_pointer complex_representation compiler_builtin : UnsupportedTypeCategory
  invalid_specifier_combination other : UnsupportedTypeCategory

mutual
  pub data CType : Type 0 where
    ctype : TypeQualifiers → Nullability → CTypeKind → SupportStatus → CType

  pub data CTypeKind : Type 0 where
    void bool : CTypeKind
    integer : CIntegerType → CTypeKind
    floating complex : CFloatingType → CTypeKind
    pointer : CType → CTypeKind
    array : CType → ArrayBound → TypeQualifiers → CTypeKind
    function : CFunctionType → CTypeKind
    alias_ref record_ref enum_ref : DeclarationId → CTypeKind
    unsupported : UnsupportedTypeCategory → Text → CTypeKind

  pub data CFunctionType : Type 0 where
    function_type :
        CType → CFunctionParameters → FunctionPrototype → CallingConvention → CFunctionType

  pub data CFunctionParameters : Type 0 where
    no_parameters : CFunctionParameters
    parameter : Option Text → CType → CFunctionParameters → CFunctionParameters

pub data AttributeDisposition : Type 0 where
  modeled preserved unsupported_abi_relevant : AttributeDisposition

pub record SourceAttribute : Type 0 where
  pub namespace : Option Text
  pub name : Text
  pub arguments : List Text
  pub spelling : Text
  pub range : SourceRange
  pub disposition : AttributeDisposition
