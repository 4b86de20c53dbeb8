-- ===== src/Preprocess/Directive/Define.antt =====
-- The parameters of a function-like macro in `parse_define` of src/preprocess/directive.rs.
use parc.Prelude.{ℕ, zero, suc, Bool, true, false, ◌&&◌, ◌||◌, List, [], ◌∷◌, ◌++◌, if◌then◌else◌}
use parc.Prelude.Result.{Result, ok, out_of_fuel}
use parc.Prelude.Text.{Text, bytes, text_eq}
use parc.Preprocess.Token.{Token, TokenKind, is_kind}

-- `while i < tokens.len() && tokens[i].kind == TokenKind::Whitespace { i += 1; }`
unfoldable pub skip_whitespace : List Token → List Token
skip_whitespace [] = []
skip_whitespace (t ∷ rest) =
    let next = skip_whitespace rest in if is_kind t TokenKind.whitespace then next else t ∷ rest

-- The same with commas, behind a parameter.
unfoldable pub skip_separators : List Token → List Token
skip_separators [] = []
skip_separators (t ∷ rest) =
    let next = skip_separators rest in
    if is_kind t TokenKind.whitespace || text_eq t.text (bytes ",") then next else t ∷ rest

-- Behind `...`: up to the closing parenthesis and past it.
unfoldable pub past_close : List Token → List Token
past_close [] = []
past_close (t ∷ rest) =
    let next = past_close rest in if text_eq t.text (bytes ")") then rest else next

-- `tokens[i + 1]` and `tokens[i + 2]` are there, and are dots.
abbrev pub two_dots : List Token → Bool
two_dots (t ∷ u ∷ _) = text_eq t.text (bytes ".") && text_eq u.text (bytes ".")
two_dots _ = false

abbrev pub behind_two : List Token → List Token
behind_two (_ ∷ _ ∷ rest) = rest
behind_two _ = []

pub record Params : Type 0 where
  pub names : List Text
  pub variadic : Bool
  pub left : List Token

-- One round of the loop: it ends with the parameters, or goes on with those so far.
pub data Round : Type 0 where
  done : Params → Round
  again : List Text → List Token → Round

unfoldable pub round : List Text → List Token → Round
round names [] = done (record { names = names; variadic = false; left = [] })
round names (t ∷ rest) =
    if text_eq t.text (bytes ")")
    then done (record { names = names; variadic = false; left = rest })
    else if text_eq t.text (bytes ".") && two_dots rest
    then done (record { names = names; variadic = true; left = past_close (behind_two rest) })
    else if is_kind t TokenKind.ident
    then again (names ++ t.text ∷ []) (skip_separators rest)
    else again names (skip_separators (t ∷ rest))

-- The loop, which nothing bounds in the source, on fuel.
unfoldable pub params : ℕ → List Text → List Token → Result Params
params zero names tokens = out_of_fuel
params (suc f) names tokens = elim (round names (skip_whitespace tokens)) [
  | done p ↦ ok p
  | again names' rest ↦ params f names' rest
]
