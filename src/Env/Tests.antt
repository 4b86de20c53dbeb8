-- ===== src/Env/Tests.antt =====
-- The scopes of src/env.rs at concrete inputs.
use parc.Prelude.{◌≡◌, refl, List, [], ◌∷◌, ◌++◌, if◌then◌else◌}
use parc.Prelude.Result.{ok}
use parc.Prelude.Text.{Text, bytes, text_eq}
use parc.Env.{
  Env, Declarator, declared, named, declarator, typename, identifier, is_type, with_gnu, add_symbol,
  is_typename, insert,
}
use parc.Env.Scopes.{
  ScopeOp, enter, leave, handle, Block, done, declaration, block, ops, run_ops,
  is_typename-add_symbol, run_ops-block,
}

-- `(*name)`, with its derived part a unit.
abbrev pointer : Text → Declarator (Unit {0}) (Unit {0})
pointer name = declared (declarator (declared (named name) (tt ∷ []) [])) [] []

-- `{ typedef T; { int T; } }`, then a name behind it.
abbrev sample : Block (Unit {0}) (Unit {0})
sample =
    declaration (pointer (bytes "T")) typename
      (block (declaration (pointer (bytes "T")) identifier done) done)

abbrev behind : List (ScopeOp (Unit {0}) (Unit {0}))
behind = handle (pointer (bytes "x")) identifier ∷ []

run_ops-block_example :
    run_ops (enter ∷ (ops sample ++ leave ∷ behind)) with_gnu ≡ run_ops behind with_gnu
run_ops-block_example = run_ops-block sample behind with_gnu

abbrev with_t : Env
with_t = record with_gnu { symbols = insert (bytes "T") typename [] ∷ [] }

abbrev no_names : Env
no_names = record with_gnu { symbols = [] ∷ [] }

added-t : add_symbol (bytes "T") typename no_names ≡ ok with_t
unfolding add_symbol
added-t = refl

is_typename-add_symbol_example : is_typename (bytes "T") with_t ≡ (
    if text_eq (bytes "T") (bytes "T") then is_type typename else is_typename (bytes "T") no_names)
is_typename-add_symbol_example =
    is_typename-add_symbol (bytes "T") (bytes "T") typename no_names with_t added-t
