-- ===== src/Preprocess/Macros/Substitute.antt =====
-- `substitute_fn_macro` of src/preprocess/macros.rs: parameters, `#` and `##` in the body of a
-- function-like macro.
use parc.Prelude.{
  ℕ, zero, suc, Bool, ◌&&◌, ◌||◌, List, [], ◌∷◌, ◌++◌, Option, none, some, ◌==◌, if◌then◌else◌,
}
use parc.Prelude.Lists.{length, drop, get_elem?}
use parc.Prelude.Result.{Result, ok, out_of_fuel}
use parc.Prelude.Text.{Text, bytes, text_eq}
use parc.Preprocess.Token.{Token, TokenKind, is_kind}
use parc.Preprocess.Directive.{skip_whitespace}
use parc.Preprocess.Macros.Table.{MacroDef}

abbrev next_index : Option ℕ → Option ℕ
next_index none = none
next_index (some i) = some (suc i)

-- `params.iter().position(|p| p == text)`
unfoldable pub position : Text → List Text → Option ℕ
position k [] = none
position k (p ∷ ps) = let i = next_index (position k ps) in if text_eq p k then some 0 else i

-- `args.get(idx).cloned().unwrap_or_default()`
abbrev pub argument : List (List Token) → ℕ → List Token
argument args i = elim (get_elem? args i) [ none ↦ [] | some a ↦ a ]

unfoldable pub tokens_to_string : List Token → Text
tokens_to_string [] = []
tokens_to_string (t ∷ ts) = t.text ++ tokens_to_string ts

abbrev pub escaped : Text → Text
escaped [] = []
escaped (b ∷ bs) =
    let rest = escaped bs in if b == 0x22 || b == 0x5c then 0x5c ∷ b ∷ rest else b ∷ rest

unfoldable pub stringify_tokens : List Token → Text
unfolding tokens_to_string
stringify_tokens ts = 0x22 ∷ (escaped (tokens_to_string ts) ++ 0x22 ∷ [])

abbrev keep_unless_white : Token → List Token → List Token
keep_unless_white t [] = if is_kind t TokenKind.whitespace then [] else t ∷ []
keep_unless_white t (u ∷ us) = t ∷ u ∷ us

-- `while result.last() is whitespace { result.pop(); }`
unfoldable pub drop_white_end : List Token → List Token
drop_white_end [] = []
drop_white_end (t ∷ ts) = keep_unless_white t (drop_white_end ts)

-- `if let Some(left) = result.last_mut() { left.text.push_str(text); }`
unfoldable pub append_to_last : List Token → Text → List Token
append_to_last [] text = []
append_to_last (t ∷ []) text = record t { text = t.text ++ text } ∷ []
append_to_last (t ∷ u ∷ us) text = t ∷ append_to_last (u ∷ us) text

-- What the loop has after a round: the result so far and the rest of the body.
abbrev pub Progress : Type 0
Progress = List Token × List Token

abbrev pub string_token : ℕ → Text → Token
string_token offset text = record { kind = TokenKind.string_literal; text = text; offset = offset }

-- A `#` in front of `param`, with the body behind it in `behind`; otherwise the `#` is kept and the
-- loop goes on at `rest`.
abbrev stringify_round :
    List Text → List (List Token) → List Token → Token → Token → List Token → List Token → Progress
stringify_round params args result t param behind rest = elim (position param.text params) [
  | some i ↦ (result ++ string_token t.offset (stringify_tokens (argument args i)) ∷ [], behind)
  | none ↦ (result ++ t ∷ [], rest)
]

-- White space between `#` and the parameter is skipped, also where no parameter follows.
unfoldable pub hash_round :
    List Text → List (List Token) → List Token → Token → List Token → Progress
unfolding stringify_tokens position
hash_round params args result t [] = (result ++ t ∷ [], [])
hash_round params args result t (next ∷ []) =
    stringify_round params args result t next [] (next ∷ [])
hash_round params args result t (next ∷ after ∷ behind) =
    if is_kind next TokenKind.whitespace
    then stringify_round params args result t after behind (after ∷ behind)
    else stringify_round params args result t next (after ∷ behind) (next ∷ after ∷ behind)

abbrev paste_text : List Text → List (List Token) → Token → Text
paste_text params args right = elim (position right.text params) [
  | some i ↦ tokens_to_string (argument args i)
  | none ↦ right.text
]

abbrev paste_onto : List Text → List (List Token) → List Token → List Token → Progress
paste_onto params args result [] = (result, [])
paste_onto params args result (right ∷ rest) =
    (append_to_last result (paste_text params args right), rest)

unfoldable pub paste_round : List Text → List (List Token) → List Token → List Token → Progress
unfolding drop_white_end append_to_last skip_whitespace position tokens_to_string
paste_round params args result rest =
    paste_onto params args (drop_white_end result) (skip_whitespace rest)

abbrev separator : ℕ → List Token
separator offset =
    record { kind = TokenKind.punct; text = bytes ","; offset = offset }
    ∷ record { kind = TokenKind.whitespace; text = bytes " "; offset = offset }
    ∷ []

-- The arguments of `...`, with a comma and a space between them.
unfoldable pub variadic_tokens : ℕ → List (List Token) → List Token
variadic_tokens offset [] = []
variadic_tokens offset (a ∷ []) = a
variadic_tokens offset (a ∷ b ∷ args) = a ++ (separator offset ++ variadic_tokens offset (b ∷ args))

abbrev va_args : Text
va_args = bytes "__VA_ARGS__"

abbrev parameter_tokens : List (List Token) → Token → Option ℕ → List Token
parameter_tokens args t none = t ∷ []
parameter_tokens args t (some i) = argument args i

-- An identifier of the body: the variadic arguments, an argument, or itself.
unfoldable pub ident_tokens : List Text → Bool → List (List Token) → Token → List Token
unfolding variadic_tokens position
ident_tokens params is_variadic args t =
    if text_eq t.text va_args && is_variadic
    then variadic_tokens t.offset (drop (length params) args)
    else parameter_tokens args t (position t.text params)

-- One round of the loop, at the token `t` of the body.
unfoldable pub substitute_round :
    List Text → Bool → List (List Token) → List Token → Token → List Token → Progress
unfolding hash_round paste_round ident_tokens
substitute_round params is_variadic args result t rest =
    if is_kind t TokenKind.hash
    then hash_round params args result t rest
    else if is_kind t TokenKind.hash_hash
    then paste_round params args result rest
    else if is_kind t TokenKind.ident
    then (result ++ ident_tokens params is_variadic args t, rest)
    else (result ++ t ∷ [], rest)

-- The loop on fuel: every round takes a token of the body at least.
unfoldable pub substitute_loop :
    ℕ → List Text → Bool → List (List Token) → List Token → List Token → Result (List Token)
substitute_loop zero params is_variadic args result body = out_of_fuel
substitute_loop (suc f) params is_variadic args result [] = ok result
substitute_loop (suc f) params is_variadic args result (t ∷ rest) =
    let (result', rest') = substitute_round params is_variadic args result t rest in
    substitute_loop f params is_variadic args result' rest'

unfoldable pub substitute_fn_macro : MacroDef → List (List Token) → Result (List Token)
unfolding substitute_loop substitute_round
substitute_fn_macro def args = elim def.params [
  | none ↦ ok def.body
  | some params ↦ substitute_loop (suc (length def.body)) params def.is_variadic args [] def.body
]
