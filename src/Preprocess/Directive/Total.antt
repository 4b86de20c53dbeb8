-- ===== src/Preprocess/Directive/Total.antt =====
-- Which lines `parse_directive` of src/preprocess/directive.rs ends on: all but those with a `#define`
-- whose parameter list is not well formed.
use parc.Prelude.{
  ℕ, suc, ◌≡◌, ◌≢◌, refl, Bool, true, ◌&&◌, ◌||◌, not, List, [], ◌∷◌, arith, if_both,
}
use parc.Prelude.Lists.{length}
use parc.Prelude.Result.{Result, ok, panic, out_of_fuel, ◌>>=◌}
use parc.Prelude.Text.{Text, bytes, text_eq}
use parc.Preprocess.Token.{Token, TokenKind, is_kind}
use parc.Preprocess.Directive.{
  Directive, skip_whitespace, parse_define, parse_line, parse_line_marker, parse_directive, unquote,
  line_file, line_from, marker_file, dispatch, directive_from, u32_or_zero,
}
use parc.Preprocess.Directive.ParamLoop.{ends, params-ends}

-- What follows `define`: a parenthesis directly behind the name opens a parameter list.
abbrev Ends : Result Directive → Type 0
Ends r = r ≢ out_of_fuel

abbrev well_formed_define : List Token → Bool
well_formed_define (name ∷ open_ ∷ rest) =
    not (is_kind name TokenKind.ident && text_eq open_.text (bytes "(")) || ends rest
well_formed_define _ = true

abbrev well_formed_line : List Token → Bool
well_formed_line [] = true
well_formed_line (t ∷ rest) =
    not (is_kind t TokenKind.ident && text_eq t.text (bytes "define"))
    || well_formed_define (skip_whitespace rest)

-- Whether the line behind a `#` is no `#define` or one whose parameter list is identifiers, commas
-- and white space up to `)`, `...` or the end of the line.
unfoldable pub is_well_formed : List Token → Bool
unfolding skip_whitespace
is_well_formed line = well_formed_line (skip_whitespace line)

parse_define-ends :
    (ts us : List Token)
    → skip_whitespace ts ≡ us
    → well_formed_define us ≡ true
    → parse_define ts ≢ out_of_fuel
unfolding parse_define
parse_define-ends ts [] e h = rw e (cc)
parse_define-ends ts (name ∷ []) e h = rw e (ground arith)
parse_define-ends ts (name ∷ open_ ∷ rest) e h = rw e (
    if_both Ends (is_kind name TokenKind.ident)
      (λ i.
        if_both Ends (text_eq open_.text (bytes "("))
          (λ o.
            let (p, q) = params-ends (suc (length rest)) [] rest (omega arith) (ground arith) in
            rw q (cc))
          (λ n. cc))
      (λ n. cc))

unquote-ends : (s : Text) → unquote s ≢ out_of_fuel
unfolding unquote
unquote-ends s = ground arith

bind_ok-Ends {ℓ} :
    {A : Type ℓ} (m : Result A) (f : A → Directive) → m ≢ out_of_fuel → Ends (m >>= λ a. ok (f a))
bind_ok-Ends (ok a) f n = cc
bind_ok-Ends panic f n = cc
bind_ok-Ends out_of_fuel f n = absurd (n refl)

line_file-Ends : (n : ℕ) (ts : List Token) → Ends (line_file n ts)
line_file-Ends n [] = cc
line_file-Ends n (t ∷ rest) =
    if_both Ends (is_kind t TokenKind.string_literal)
      (λ _. bind_ok-Ends (unquote t.text) _ (unquote-ends t.text)) (λ _. cc)

marker_file-Ends : (n : ℕ) (ts : List Token) → Ends (marker_file n ts)
marker_file-Ends n [] = cc
marker_file-Ends n (t ∷ rest) =
    if_both Ends (is_kind t TokenKind.string_literal)
      (λ _. bind_ok-Ends (unquote t.text) _ (unquote-ends t.text)) (λ _. cc)

line_from-Ends : (ts us : List Token) → Ends (line_from ts us)
line_from-Ends ts [] = cc
line_from-Ends ts (t ∷ rest) =
    if_both Ends (is_kind t TokenKind.number)
      (λ _. line_file-Ends (u32_or_zero t.text) (skip_whitespace rest)) (λ _. cc)

dispatch-Ends :
    (name : Text) (rest : List Token)
    → not (text_eq name (bytes "define")) || well_formed_define (skip_whitespace rest) ≡ true
    → Ends (dispatch name rest)
unfolding parse_line
dispatch-Ends name rest h =
    if_both Ends (text_eq name (bytes "define"))
      (λ d. parse_define-ends rest (skip_whitespace rest) refl (ground arith))
      (λ _. ground (arith, line_from-Ends rest (skip_whitespace rest)))

directive_from-Ends :
    (ts us : List Token) → well_formed_line us ≡ true → Ends (directive_from ts us)
unfolding parse_line_marker
directive_from-Ends ts [] h = cc
directive_from-Ends ts (t ∷ rest) h =
    if_both Ends (is_kind t TokenKind.number)
      (λ _. marker_file-Ends (u32_or_zero t.text) (skip_whitespace rest))
      (λ _.
        if_both Ends (is_kind t TokenKind.ident) (λ i. dispatch-Ends t.text rest (ground arith))
          (λ _. cc))

pub parse_directive-ends :
    (line : List Token) → is_well_formed line ≡ true → parse_directive line ≢ out_of_fuel
unfolding parse_directive is_well_formed
parse_directive-ends line h = directive_from-Ends line (skip_whitespace line) h
