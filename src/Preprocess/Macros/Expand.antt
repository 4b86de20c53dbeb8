-- ===== src/Preprocess/Macros/Expand.antt =====
-- `expand` and `expand_with_paint` of src/preprocess/macros.rs. The names in `paint` are those whose
-- expansion is under way.
use parc.Prelude.{
  ℕ, zero, suc, Bool, true, false, ◌&&◌, not, List, [], ◌∷◌, ◌++◌, Option, none, some,
  if◌then◌else◌,
}
use parc.Prelude.Lists.{length}
use parc.Prelude.Result.{Result, ok, out_of_fuel, ◌>>=◌}
use parc.Prelude.Text.{Text, text_eq}
use parc.Preprocess.Token.{Token, TokenKind, is_kind}
use parc.Preprocess.Macros.Args.{collect_macro_args}
use parc.Preprocess.Macros.Substitute.{substitute_fn_macro}
use parc.Preprocess.Macros.Table.{MacroDef, MacroTable, get, len}

unfoldable pub contains : List Text → Text → Bool
contains [] k = false
contains (p ∷ ps) k = if text_eq p k then true else contains ps k

-- What the loop does at a token: it keeps it, or puts the expansion of `body` in its place and
-- goes on at `rest`.
pub data Step : Type 0 where
  keep : Step
  replace : List Token → List Token → Step

abbrev pub invoke : MacroDef → Option (List (List Token) × List Token) → Result Step
invoke def none = ok keep
invoke def (some (args, rest)) = substitute_fn_macro def args >>= λ body. ok (replace body rest)

abbrev pub step_macro : List Token → Option MacroDef → Result Step
step_macro rest none = ok keep
step_macro rest (some def) = elim def.params [
  | none ↦ ok (replace def.body rest)
  | some _ ↦ invoke def (collect_macro_args rest)
]

unfoldable pub step : MacroTable → List Text → Token → List Token → Result Step
unfolding contains
step table paint t rest =
    if is_kind t TokenKind.ident && not (contains paint t.text)
    then step_macro rest (get t.text table)
    else ok keep

-- What follows the choice of a step: `expand_body` expands under one more painted name, and
-- `go_on` is the rest of the loop.
abbrev pub follow :
    (List Text → List Token → Result (List Token))
    → (List Token → Result (List Token))
    → List Text
    → Token
    → List Token
    → Step
    → Result (List Token)
follow expand_body go_on paint t rest keep = go_on rest >>= λ r. ok (t ∷ r)
follow expand_body go_on paint t rest (replace body rest') =
    expand_body (t.text ∷ paint) body >>= λ e. go_on rest' >>= λ r. ok (e ++ r)

-- The loop of `expand_with_paint`, on fuel for its rounds.
unfoldable pub expand_loop :
    MacroTable
    → (List Text → List Token → Result (List Token))
    → ℕ
    → List Text
    → List Token
    → Result (List Token)
expand_loop table expand_body zero paint tokens = out_of_fuel
expand_loop table expand_body (suc f) paint [] = ok []
expand_loop table expand_body (suc f) paint (t ∷ rest) =
    step table paint t rest
    >>= follow expand_body (λ ts. expand_loop table expand_body f paint ts) paint t rest

-- `expand_with_paint`, on fuel for the depth of its calls.
unfoldable pub expand_with_paint : MacroTable → ℕ → List Text → List Token → Result (List Token)
expand_with_paint table zero paint tokens = out_of_fuel
expand_with_paint table (suc d) paint tokens =
    expand_loop table (λ p ts. expand_with_paint table d p ts) (suc (length tokens)) paint tokens

-- `MacroTable::expand`. A call paints a defined name that was not painted, so the depth is at most
-- the number of definitions.
unfoldable pub expand : MacroTable → List Token → Result (List Token)
expand table tokens = expand_with_paint table (suc (len table)) [] tokens
