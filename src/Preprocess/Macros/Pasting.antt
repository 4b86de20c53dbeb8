-- ===== src/Preprocess/Macros/Pasting.antt =====
-- `##` with an empty left operand in src/preprocess/macros.rs. C takes the empty operand for a
-- placemarker, and the right operand stays.
use parc.Prelude.{
  ℕ, zero, suc, ◌<◌, ◌≤◌, ◌≡◌, subst, refl, Bool, false, true, List, [], ◌∷◌, ◌++◌, some, arith, ap,
  sym, ◌∙◌, append-nil, append_assoc,
}
use parc.Prelude.Lists.{length, All}
use parc.Prelude.Result.{Result}
use parc.Prelude.Text.{Text}
use parc.Preprocess.Token.{Token, TokenKind, is_kind}
use parc.Preprocess.Directive.{skip_whitespace}
use parc.Preprocess.Macros.{
  MacroDef, substitute_fn_macro, substitute_loop, substitute_round, paste_round, ident_tokens,
  drop_white_end, append_to_last,
}
use parc.Preprocess.Macros.Total.{substitute_round_le}

abbrev pub IsWhite : Token → Type 0
IsWhite t = is_kind t TokenKind.whitespace ≡ true

-- `left ## right` with white space on both sides of the operator, in front of the rest of a body.
abbrev pub pasting : Token → List Token → Token → List Token → Token → List Token → List Token
pasting left white₁ operator white₂ right rest =
    left ∷ (white₁ ++ operator ∷ (white₂ ++ right ∷ rest))

drop_white_end-IsWhite : (ts : List Token) → All IsWhite ts → drop_white_end ts ≡ []
unfolding drop_white_end
drop_white_end-IsWhite [] w = refl
drop_white_end-IsWhite (t ∷ ts) (h, w) = rw (drop_white_end-IsWhite ts w, h) refl

skip_whitespace-IsWhite :
    (white : List Token) (t : Token) (rest : List Token)
    → All IsWhite white
    → is_kind t TokenKind.whitespace ≡ false
    → skip_whitespace (white ++ t ∷ rest) ≡ t ∷ rest
unfolding skip_whitespace
skip_whitespace-IsWhite [] t rest w n = rw n refl
skip_whitespace-IsWhite (u ∷ us) t rest (h, w) n = rw h (skip_whitespace-IsWhite us t rest w n)

-- Where only white space is in front of the operator, it takes its right operand and gives nothing.
paste_round-IsWhite :
    (params : List Text) (args : List (List Token)) (result white rest : List Token) (right : Token)
    → All IsWhite result
    → All IsWhite white
    → is_kind right TokenKind.whitespace ≡ false
    → paste_round params args result (white ++ right ∷ rest) ≡ ([], rest)
unfolding paste_round append_to_last
paste_round-IsWhite params args result white rest right v w n =
    rw (drop_white_end-IsWhite result v, skip_whitespace-IsWhite white right rest w n) refl

module _ (params : List Text) (is_variadic : Bool) (args : List (List Token)) where
  -- More fuel than tokens gives the same result.
  substitute_loop-fuel :
      (f g : ℕ) (result body : List Token)
      → length body < f
      → length body < g
      → substitute_loop f params is_variadic args result body
        ≡ substitute_loop g params is_variadic args result body
  unfolding substitute_loop
  substitute_loop-fuel zero g result body p q = absurd (omega arith)
  substitute_loop-fuel (suc f) zero result body p q = absurd (omega arith)
  substitute_loop-fuel (suc f) (suc g) result [] p q = refl
  substitute_loop-fuel (suc f) (suc g) result (t ∷ rest) p q =
      let (result', rest') = substitute_round params is_variadic args result t rest in
      let le = substitute_round_le params is_variadic args result t rest in
      substitute_loop-fuel f g result' rest' (omega (arith, le)) (omega (arith, le))

  -- The loop on a round for each token and one more.
  abbrev run : List Token → List Token → Result (List Token)
  run result body = substitute_loop (suc (length body)) params is_variadic args result body

  run_round :
      (result : List Token) (t : Token) (rest result' rest' : List Token)
      → substitute_round params is_variadic args result t rest ≡ (result', rest')
      → run result (t ∷ rest) ≡ run result' rest'
  unfolding substitute_loop
  run_round result t rest result' rest' e =
      let le = substitute_round_le params is_variadic args result t rest in
      let shorter : length rest' ≤ length rest = subst (λ r. length r.1 ≤ length rest) e le in
      ap (λ r. substitute_loop (suc (length rest)) params is_variadic args r.0 r.1) e
      ∙ substitute_loop-fuel (suc (length rest)) (suc (length rest')) result' rest' (omega arith)
          (omega arith)

  white_round :
      (result : List Token) (t : Token) (rest : List Token)
      → IsWhite t
      → substitute_round params is_variadic args result t rest ≡ (result ++ t ∷ [], rest)
  unfolding substitute_round
  white_round result t rest h = ground arith

  left_round :
      (t : Token) (rest : List Token)
      → is_kind t TokenKind.ident ≡ true
      → ident_tokens params is_variadic args t ≡ []
      → substitute_round params is_variadic args [] t rest ≡ ([], rest)
  unfolding substitute_round
  left_round t rest l e = ground (arith, e)

  operator_round :
      (result : List Token) (t : Token) (rest : List Token)
      → is_kind t TokenKind.hash_hash ≡ true
      → substitute_round params is_variadic args result t rest ≡ paste_round params args result rest
  unfolding substitute_round
  operator_round result t rest o = ground arith

  run-IsWhite :
      (result white rest : List Token)
      → All IsWhite white
      → run result (white ++ rest) ≡ run (result ++ white) rest
  run-IsWhite result [] rest w = ap (λ r. run r rest) (sym (append-nil result))
  run-IsWhite result (t ∷ ts) rest (h, w) =
      run_round result t (ts ++ rest) (result ++ t ∷ []) (ts ++ rest) (white_round result t _ h)
      ∙ run-IsWhite (result ++ t ∷ []) ts rest w
      ∙ ap (λ r. run r rest) (append_assoc result (t ∷ []) ts)

  run-pasting :
      (left operator right : Token) (white₁ white₂ rest : List Token)
      → is_kind left TokenKind.ident ≡ true
      → ident_tokens params is_variadic args left ≡ []
      → All IsWhite white₁
      → is_kind operator TokenKind.hash_hash ≡ true
      → All IsWhite white₂
      → is_kind right TokenKind.whitespace ≡ false
      → run [] (pasting left white₁ operator white₂ right rest) ≡ run [] rest
  run-pasting left operator right white₁ white₂ rest l e v o w n =
      run_round [] left (white₁ ++ behind) [] (white₁ ++ behind) (left_round left _ l e)
      ∙ run-IsWhite [] white₁ behind v
      ∙ run_round white₁ operator (white₂ ++ right ∷ rest) [] rest (
          operator_round white₁ operator (white₂ ++ right ∷ rest) o
          ∙ paste_round-IsWhite params args white₁ white₂ rest right v w n)
    where
      behind : List Token
      behind = operator ∷ (white₂ ++ right ∷ rest)

-- Where the body of a macro begins with an identifier for which the arguments put no token, `##`
-- and a right operand, with white space around the operator or none, the right operand is lost,
-- whatever it is: the result is that of the rest of the body.
pub paste-empty_left :
    (def : MacroDef) (params : List Text) (args : List (List Token)) (left operator right : Token)
    (white₁ white₂ rest : List Token)
    → def.params ≡ some params
    → def.body ≡ pasting left white₁ operator white₂ right rest
    → is_kind left TokenKind.ident ≡ true
    → ident_tokens params def.is_variadic args left ≡ []
    → All IsWhite white₁
    → is_kind operator TokenKind.hash_hash ≡ true
    → All IsWhite white₂
    → is_kind right TokenKind.whitespace ≡ false
    → substitute_fn_macro def args ≡ substitute_fn_macro (record def { body = rest }) args
unfolding substitute_fn_macro
paste-empty_left def params args left operator right white₁ white₂ rest p b l e v o w n =
    rw (p, b)
      (run-pasting params def.is_variadic args left operator right white₁ white₂ rest l e v o w n)
