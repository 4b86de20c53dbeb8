-- ===== src/Preprocess/Macros/Args.antt =====
-- `collect_macro_args` of src/preprocess/macros.rs: the arguments of an invocation, with the tokens
-- behind its closing parenthesis in place of their position.
use parc.Prelude.{
  ℕ, suc, ◌-◌, ◌&&◌, List, [], ◌∷◌, ◌++◌, map, Option, none, some, ◌==◌, if◌then◌else◌,
}
use parc.Prelude.Text.{bytes, text_eq}
use parc.Preprocess.Token.{Token}
use parc.Preprocess.Directive.{skip_whitespace, strip_whitespace_edges}

-- `FOO()` has no argument, not an empty one.
abbrev pub drop_empty : List (List Token) → List (List Token)
drop_empty ([] ∷ []) = []
drop_empty args = args

unfoldable pub finish_args : List (List Token) → List (List Token)
finish_args args = drop_empty (map strip_whitespace_edges args)

-- The loop: `args` holds the arguments before the current one, `arg` that one.
unfoldable pub collect_args :
    ℕ → List (List Token) → List Token → List Token → Option (List (List Token) × List Token)
collect_args depth args arg [] = none
collect_args depth args arg (t ∷ rest) =
    let opened = collect_args (suc depth) args (arg ++ t ∷ []) rest in
    let closed = collect_args (depth - 1) args (arg ++ t ∷ []) rest in
    let comma = collect_args depth (args ++ arg ∷ []) [] rest in
    let other = collect_args depth args (arg ++ t ∷ []) rest in
    if text_eq t.text (bytes "(")
    then opened
    else if text_eq t.text (bytes ")")
    then (if depth == 0 then some (finish_args (args ++ arg ∷ []), rest) else closed)
    else if text_eq t.text (bytes ",") && depth == 0
    then comma
    else other

abbrev pub collect_from : List Token → Option (List (List Token) × List Token)
collect_from [] = none
collect_from (t ∷ rest) =
    let args = collect_args 0 [] [] rest in if text_eq t.text (bytes "(") then args else none

unfoldable pub collect_macro_args : List Token → Option (List (List Token) × List Token)
unfolding collect_args finish_args skip_whitespace strip_whitespace_edges
collect_macro_args tokens = collect_from (skip_whitespace tokens)
