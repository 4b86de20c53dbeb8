-- ===== src/Preprocess/Macros/Inert.antt =====
-- Tokens that name no macro, in src/preprocess/macros.rs.
use parc.Prelude.{ℕ, zero, suc, ◌<◌, ◌≡◌, refl, false, ◌&&◌, List, [], ◌∷◌, arith}
use parc.Prelude.Lists.{length, All}
use parc.Prelude.Result.{Result, ok}
use parc.Prelude.Text.{Text}
use parc.Preprocess.Token.{Token, TokenKind, is_kind}
use parc.Preprocess.Macros.{
  MacroTable, is_defined, keep, step, expand_loop, expand_with_paint, expand,
}

-- Not the name of a macro.
abbrev pub IsInert : MacroTable → Token → Type 0
IsInert table t = (is_kind t TokenKind.ident && is_defined t.text table) ≡ false

step-IsInert :
    (table : MacroTable) (paint : List Text) (t : Token) (rest : List Token)
    → IsInert table t
    → step table paint t rest ≡ ok keep
unfolding step is_defined
step-IsInert table paint t rest h = ground arith

expand_loop-IsInert :
    (table : MacroTable) (expand_body : List Text → List Token → Result (List Token)) (f : ℕ)
    (paint : List Text) (ts : List Token)
    → length ts < f
    → All (IsInert table) ts
    → expand_loop table expand_body f paint ts ≡ ok ts
unfolding expand_loop
expand_loop-IsInert table expand_body zero paint ts l h = absurd (omega arith)
expand_loop-IsInert table expand_body (suc f) paint [] l h = refl
expand_loop-IsInert table expand_body (suc f) paint (t ∷ ts) l h =
    rw
      (
        step-IsInert table paint t ts h.0,
        expand_loop-IsInert table expand_body f paint ts (omega arith) h.1,
      )
      refl

-- Tokens that name no macro pass unchanged: nothing is dropped, added or moved.
pub expand-IsInert :
    (table : MacroTable) (ts : List Token) → All (IsInert table) ts → expand table ts ≡ ok ts
unfolding expand expand_with_paint
expand-IsInert table ts h =
    expand_loop-IsInert table (λ p us. expand_with_paint table _ p us) (suc (length ts)) [] ts
      (omega arith) h
