-- ===== src/Env.antt =====
-- src/env.rs: the names that the parser knows, by scope, and the reserved words of a dialect.
mod Reserved
pub mod Scopes
mod Tests
unfoldable pub use Reserved.*
use parc.Prelude.{Bool, true, false, List, [], ◌∷◌, ◌++◌, Option, none, some, if◌then◌else◌}
use parc.Prelude.Lists.{any}
use parc.Prelude.Result.{Result, ok, panic}
use parc.Prelude.Text.{Text, bytes, text_eq}

pub data Symbol : Type 0 where
  typename identifier : Symbol

abbrev pub is_type : Symbol → Bool
is_type typename = true
is_type identifier = false

-- A HashMap from names to symbols: each name once.
abbrev pub Scope : Type 0
Scope = List (Text × Symbol)

unfoldable pub find : Text → Scope → Option Symbol
find k [] = none
find k ((j, s) ∷ rest) = let behind = find k rest in if text_eq j k then some s else behind

unfoldable pub insert : Text → Symbol → Scope → Scope
insert k s [] = (k, s) ∷ []
insert k s ((j, t) ∷ rest) =
    let behind = insert k s rest in if text_eq j k then (k, s) ∷ rest else (j, t) ∷ behind

-- `symbols` holds the innermost scope first, the last of the vector.
pub record Env : Type 0 where
  pub symbols : List Scope
  pub extensions_gnu : Bool
  pub extensions_clang : Bool
  pub reserved : List Text

unfoldable pub with_core : Env
with_core = record {
  symbols = [] ∷ [];
  extensions_gnu = false;
  extensions_clang = false;
  reserved = reserved_c11;
}

abbrev va_list : Scope
va_list = (bytes "__builtin_va_list", typename) ∷ []

unfoldable pub with_gnu : Env
with_gnu = record {
  symbols = va_list ∷ [];
  extensions_gnu = true;
  extensions_clang = false;
  reserved = reserved_c11 ++ reserved_gnu;
}

unfoldable pub with_clang : Env
with_clang = record {
  symbols = va_list ∷ [];
  extensions_gnu = true;
  extensions_clang = true;
  reserved = reserved_c11 ++ (reserved_gnu ++ reserved_clang);
}

unfoldable pub enter_scope : Env → Env
enter_scope e = record e { symbols = [] ∷ e.symbols }

abbrev without_scope : Env → List Scope → Result Env
without_scope e [] = panic
without_scope e (_ ∷ outer) = ok (record e { symbols = outer })

unfoldable pub leave_scope : Env → Result Env
leave_scope e = without_scope e e.symbols

abbrev decided : Option Symbol → Bool → Bool
decided none outer = outer
decided (some s) outer = is_type s

unfoldable pub typename_in : Text → List Scope → Bool
typename_in ident [] = false
typename_in ident (scope ∷ outer) = decided (find ident scope) (typename_in ident outer)

unfoldable pub is_typename : Text → Env → Bool
unfolding typename_in
is_typename ident e = typename_in ident e.symbols

abbrev pub with_symbol : Env → Text → Symbol → List Scope → Result Env
with_symbol e s symbol [] = panic
with_symbol e s symbol (scope ∷ outer) = ok (record e { symbols = insert s symbol scope ∷ outer })

unfoldable pub add_symbol : Text → Symbol → Env → Result Env
unfolding insert
add_symbol s symbol e = with_symbol e s symbol e.symbols

-- `DeclaratorKind` and `Declarator` of src/ast/declarations.rs, over the derived declarators `D` and
-- the extensions `E`.
mutual
  pub data DeclaratorKind (D E : Type 0) : Type 0 where
    abstract : DeclaratorKind D E
    named : Text → DeclaratorKind D E
    declarator : Declarator D E → DeclaratorKind D E

  pub data Declarator (D E : Type 0) : Type 0 where
    declared : DeclaratorKind D E → List D → List E → Declarator D E

mutual
  pub find_declarator_name : {D E : Type 0} → DeclaratorKind D E → Option Text
  find_declarator_name abstract = none
  find_declarator_name (named i) = some i
  find_declarator_name (declarator d) = declarator_name d

  pub declarator_name : {D E : Type 0} → Declarator D E → Option Text
  declarator_name (declared kind derived extensions) = find_declarator_name kind

abbrev pub declare : Option Text → Symbol → Env → Result Env
declare none symbol e = ok e
declare (some name) symbol e = add_symbol name symbol e

unfoldable pub handle_declarator : {D E : Type 0} → Declarator D E → Symbol → Env → Result Env
handle_declarator d symbol e = declare (declarator_name d) symbol e

-- `env.reserved.contains` of the parser's rule for identifiers.
unfoldable pub is_reserved : Text → Env → Bool
is_reserved n e = any (λ w. text_eq w n) e.reserved
