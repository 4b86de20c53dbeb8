-- ===== src/Preprocess/Macros/Table.antt =====
-- `MacroTable` of src/preprocess/macros.rs as a map: its operations and their laws.
use parc.Prelude.{
  ℕ, ◌≡◌, Bool, true, false, List, [], ◌∷◌, Option, none, some, arith, if◌then◌else◌,
}
use parc.Prelude.Lists.{length}
use parc.Prelude.Text.{Text, text_eq, text_eq_iff}
use parc.Preprocess.Token.{Token}

pub record MacroDef : Type 0 where
  pub name : Text
  pub params : Option (List Text)
  pub is_variadic : Bool
  pub body : List Token

pub record MacroTable : Type 0 where
  pub macros : List MacroDef

abbrev pub new : MacroTable
new = record { macros = [] }

unfoldable pub without : Text → List MacroDef → List MacroDef
without k [] = []
without k (d ∷ ds) = let rest = without k ds in if text_eq d.name k then rest else d ∷ rest

unfoldable pub lookup : Text → List MacroDef → Option MacroDef
lookup k [] = none
lookup k (d ∷ ds) = if text_eq d.name k then some d else lookup k ds

unfoldable pub define : MacroDef → MacroTable → MacroTable
unfolding without
define d t = record { macros = d ∷ without d.name t.macros }

unfoldable pub undef : Text → MacroTable → MacroTable
unfolding without
undef k t = record { macros = without k t.macros }

unfoldable pub get : Text → MacroTable → Option MacroDef
unfolding lookup
get k t = lookup k t.macros

abbrev pub is_some {ℓ} : {A : Type ℓ} → Option A → Bool
is_some none = false
is_some (some _) = true

unfoldable pub is_defined : Text → MacroTable → Bool
unfolding get
is_defined k t = is_some (get k t)

unfoldable pub len : MacroTable → ℕ
len t = length t.macros

lookup-without :
    (k j : Text) (ds : List MacroDef)
    → lookup j (without k ds) ≡ (if text_eq k j then none else lookup j ds)
unfolding lookup without
lookup-without k j [] = ground arith
lookup-without k j (d ∷ ds) =
    ground
      (arith, lookup-without k j ds, text_eq_iff d.name k, text_eq_iff d.name j, text_eq_iff k j)

-- What a lookup finds behind a definition: the new definition under its name, which replaces an
-- older one, and what was there under every other name.
pub get-define :
    (d : MacroDef) (t : MacroTable) (j : Text)
    → get j (define d t) ≡ (if text_eq d.name j then some d else get j t)
unfolding get define lookup
get-define d t j = ground (arith, lookup-without d.name j t.macros)

-- A lookup behind an `#undef` finds nothing under the removed name, and what was there under every
-- other name.
pub get-undef :
    (k : Text) (t : MacroTable) (j : Text)
    → get j (undef k t) ≡ (if text_eq k j then none else get j t)
unfolding get undef
get-undef k t j = lookup-without k j t.macros
