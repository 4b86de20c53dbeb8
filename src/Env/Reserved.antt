-- ===== src/Env/Reserved.antt =====
-- src/strings.rs: the words that are no identifiers, for each dialect.
use parc.Prelude.{List, [], ◌∷◌}
use parc.Prelude.Text.{Text, bytes}

unfoldable pub reserved_c11 : List Text
reserved_c11 =
    bytes "auto"
    ∷ bytes "break"
    ∷ bytes "case"
    ∷ bytes "char"
    ∷ bytes "const"
    ∷ bytes "continue"
    ∷ bytes "default"
    ∷ bytes "do"
    ∷ bytes "double"
    ∷ bytes "else"
    ∷ bytes "enum"
    ∷ bytes "extern"
    ∷ bytes "float"
    ∷ bytes "for"
    ∷ bytes "goto"
    ∷ bytes "if"
    ∷ bytes "inline"
    ∷ bytes "int"
    ∷ bytes "long"
    ∷ bytes "register"
    ∷ bytes "restrict"
    ∷ bytes "return"
    ∷ bytes "short"
    ∷ bytes "signed"
    ∷ bytes "sizeof"
    ∷ bytes "static"
    ∷ bytes "struct"
    ∷ bytes "switch"
    ∷ bytes "typedef"
    ∷ bytes "union"
    ∷ bytes "unsigned"
    ∷ bytes "void"
    ∷ bytes "volatile"
    ∷ bytes "while"
    ∷ bytes "_Alignas"
    ∷ bytes "_Alignof"
    ∷ bytes "_Atomic"
    ∷ bytes "_Bool"
    ∷ bytes "_Complex"
    ∷ bytes "_Generic"
    ∷ bytes "_Imaginary"
    ∷ bytes "_Noreturn"
    ∷ bytes "_Static_assert"
    ∷ bytes "_Thread_local"
    ∷ bytes "_Float16"
    ∷ bytes "_Float16x"
    ∷ bytes "_Float32"
    ∷ bytes "_Float32x"
    ∷ bytes "_Float64"
    ∷ bytes "_Float64x"
    ∷ bytes "_Float128"
    ∷ bytes "_Float128x"
    ∷ bytes "_Decimal32"
    ∷ bytes "_Decimal32x"
    ∷ bytes "_Decimal64"
    ∷ bytes "_Decimal64x"
    ∷ bytes "_Decimal128"
    ∷ bytes "_Decimal128x"
    ∷ bytes "bool"
    ∷ bytes "true"
    ∷ bytes "false"
    ∷ bytes "static_assert"
    ∷ bytes "alignas"
    ∷ bytes "alignof"
    ∷ bytes "thread_local"
    ∷ bytes "nullptr"
    ∷ bytes "constexpr"
    ∷ bytes "noreturn"
    ∷ bytes "complex"
    ∷ bytes "_BitInt"
    ∷ []

unfoldable pub reserved_gnu : List Text
reserved_gnu =
    bytes "__FUNCTION__"
    ∷ bytes "__PRETTY_FUNCTION__"
    ∷ bytes "__alignof"
    ∷ bytes "__alignof__"
    ∷ bytes "__asm"
    ∷ bytes "__asm__"
    ∷ bytes "__attribute"
    ∷ bytes "__attribute__"
    ∷ bytes "__builtin_offsetof"
    ∷ bytes "__builtin_va_arg"
    ∷ bytes "__complex"
    ∷ bytes "__complex__"
    ∷ bytes "__const"
    ∷ bytes "__extension__"
    ∷ bytes "__func__"
    ∷ bytes "__imag"
    ∷ bytes "__imag__"
    ∷ bytes "__inline"
    ∷ bytes "__inline__"
    ∷ bytes "__label__"
    ∷ bytes "__null"
    ∷ bytes "__real"
    ∷ bytes "__real__"
    ∷ bytes "__restrict"
    ∷ bytes "__restrict__"
    ∷ bytes "__signed"
    ∷ bytes "__signed__"
    ∷ bytes "__thread"
    ∷ bytes "__typeof"
    ∷ bytes "__volatile"
    ∷ bytes "__volatile__"
    ∷ bytes "__int128"
    ∷ bytes "__float128"
    ∷ []

unfoldable pub reserved_clang : List Text
reserved_clang =
    bytes "__single_inheritance"
    ∷ bytes "__multiple_inheritance"
    ∷ bytes "__virtual_inheritance"
    ∷ bytes "__unspecified_inheritance"
    ∷ bytes "__fastcall"
    ∷ bytes "__regcall"
    ∷ bytes "__stdcall"
    ∷ bytes "__thiscall"
    ∷ bytes "__vectorcall"
    ∷ bytes "_Nonnull"
    ∷ bytes "_Null_unspecified"
    ∷ bytes "_Nullable"
    ∷ []
