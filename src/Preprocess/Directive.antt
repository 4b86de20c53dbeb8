-- ===== src/Preprocess/Directive.antt =====
-- src/preprocess/directive.rs: directives from the tokens of a line. `panic` is a slice out of
-- range, `out_of_fuel` the loop over the parameters of a `#define`, which may not end.
mod Define
pub mod ParamLoop
pub mod Total
unfoldable pub use Define.*
use parc.Prelude.{
  ℕ, suc, not, ◌-◌, ◌^◌, Bool, true, false, ◌&&◌, ◌||◌, List, [], ◌∷◌, ◌++◌, Option, none, some,
  ltb, leb, ◌==◌, if◌then◌else◌,
}
use parc.Prelude.Lists.{length, take, drop, get_elem?}
use parc.Prelude.Parse.{parse_unsigned}
use parc.Prelude.Result.{Result, ok, panic, out_of_fuel, ◌>>=◌}
use parc.Prelude.Text.{Text, bytes, text_eq, is_continuation}
use parc.Prelude.Trim.{trim, trim_end, is_white, is_empty}
use parc.Preprocess.Token.{Token, TokenKind, is_kind}

pub data Directive : Type 0 where
  define : Text → Option (List Text) → Bool → List Token → Directive
  undef : Text → Directive
  include : Text → Bool → Bool → Directive
  include_computed : List Token → Bool → Directive
  if_ : List Token → Directive
  ifdef : Text → Directive
  ifndef : Text → Directive
  elif : List Token → Directive
  else_ : Directive
  endif : Directive
  error : Text → Directive
  warning : Text → Directive
  pragma : List Token → Directive
  line : ℕ → Option Text → Directive
  line_marker : ℕ → Text → List ℕ → Directive
  null : Directive
  unknown : Text → List Token → Directive

abbrev define_function_like : Text → List Token → Result Directive
define_function_like name rest = params (suc (length rest)) [] rest >>= λ p.
    ok (define name (some p.names) p.variadic (skip_whitespace p.left))

-- A parenthesis directly behind the name makes a function-like macro.
abbrev define_named : Text → List Token → Result Directive
define_named name [] = ok (define name none false [])
define_named name (t ∷ rest) =
    let function_like = define_function_like name rest in
    if text_eq t.text (bytes "(")
    then function_like
    else ok (define name none false (skip_whitespace (t ∷ rest)))

abbrev define_from : List Token → List Token → Result Directive
define_from tokens [] = ok (unknown (bytes "define") tokens)
define_from tokens (t ∷ rest) =
    if is_kind t TokenKind.ident
    then define_named t.text rest
    else ok (unknown (bytes "define") tokens)

unfoldable pub parse_define : List Token → Result Directive
unfolding params round skip_whitespace skip_separators past_close
parse_define tokens = define_from tokens (skip_whitespace tokens)

unfoldable pub first_ident : List Token → Option Text
first_ident [] = none
first_ident (t ∷ rest) =
    let next = first_ident rest in
    if is_kind t TokenKind.whitespace
    then next
    else if is_kind t TokenKind.ident
    then some t.text
    else none

abbrev named_or_unknown : Text → List Token → (Text → Directive) → Option Text → Directive
named_or_unknown keyword tokens make none = unknown keyword tokens
named_or_unknown keyword tokens make (some name) = make name

unfoldable pub parse_undef : List Token → Directive
unfolding first_ident
parse_undef tokens = named_or_unknown (bytes "undef") tokens undef (first_ident tokens)

unfoldable pub parse_ifdef : List Token → Directive
unfolding first_ident
parse_ifdef tokens = named_or_unknown (bytes "ifdef") tokens ifdef (first_ident tokens)

unfoldable pub parse_ifndef : List Token → Directive
unfolding first_ident
parse_ifndef tokens = named_or_unknown (bytes "ifndef") tokens ifndef (first_ident tokens)

abbrev piece_of : Token → Text
piece_of t =
    if is_kind t TokenKind.line_comment || is_kind t TokenKind.block_comment
    then bytes " "
    else t.text

-- The loop of `collect_text`: a piece that is white is dropped while the text is empty.
unfoldable pub collect : Text → List Token → Text
unfolding is_white
collect text [] = text
collect text (t ∷ rest) =
    collect (if is_empty text && is_white (piece_of t) then text else text ++ piece_of t) rest

unfoldable pub collect_text : List Token → Text
unfolding collect trim_end
collect_text tokens = trim_end (collect [] tokens)

abbrev pub last_byte : Text → ℕ
last_byte [] = 0
last_byte (b ∷ []) = b
last_byte (b ∷ c ∷ bs) = last_byte (c ∷ bs)

abbrev pub first_byte : Text → ℕ
first_byte [] = 0
first_byte (b ∷ _) = b

abbrev inner : Text → Text
inner t = take (length t - 2) (drop 1 t)

-- `header_name` on a trimmed text.
abbrev header_of : Text → Option (Text × Bool)
header_of t =
    if leb 2 (length t) && (first_byte t == b'<' && last_byte t == b'>')
    then some (inner t, true)
    else if leb 2 (length t) && (first_byte t == 0x22 && last_byte t == 0x22)
    then some (inner t, false)
    else none

unfoldable pub header_name : Text → Option (Text × Bool)
unfolding trim
header_name text = header_of (trim text)

abbrev is_blank : Token → Bool
is_blank t =
    is_kind t TokenKind.whitespace
    || (is_kind t TokenKind.newline
        || (is_kind t TokenKind.line_comment || is_kind t TokenKind.block_comment))

unfoldable pub joined : List Token → Text
joined [] = []
joined (t ∷ rest) = let text = joined rest in if is_blank t then text else t.text ++ text

unfoldable pub expanded_header_name : List Token → Option (Text × Bool)
unfolding joined header_name
expanded_header_name tokens = header_name (joined tokens)

abbrev include_of : List Token → Bool → Option (Text × Bool) → Directive
include_of tokens next none = include_computed tokens next
include_of tokens next (some (path, system)) = include path system next

unfoldable pub parse_include : List Token → Bool → Directive
unfolding collect_text header_name
parse_include tokens next = include_of tokens next (header_name (collect_text tokens))

-- `&s[1..s.len() - 1]`: a panic where the range is backwards or cuts a character.
abbrev pub is_boundary : Text → Bool
is_boundary [] = true
is_boundary (b ∷ _) = not (is_continuation b)

unfoldable pub unquote : Text → Result Text
unquote s =
    if leb 2 (length s) && (is_boundary (drop 1 s) && is_boundary (drop (length s - 1) s))
    then ok (inner s)
    else panic

abbrev pub u32_or_zero : Text → ℕ
u32_or_zero s = elim (parse_unsigned (2 ^ 32 - 1) 10 s) [ none ↦ 0 | some n ↦ n ]

abbrev pub line_file : ℕ → List Token → Result Directive
line_file n [] = ok (line n none)
line_file n (t ∷ _) =
    if is_kind t TokenKind.string_literal
    then (unquote t.text >>= λ f. ok (line n (some f)))
    else ok (line n none)

abbrev pub line_from : List Token → List Token → Result Directive
line_from tokens [] = ok (unknown (bytes "line") tokens)
line_from tokens (t ∷ rest) =
    if is_kind t TokenKind.number
    then line_file (u32_or_zero t.text) (skip_whitespace rest)
    else ok (unknown (bytes "line") tokens)

unfoldable pub parse_line : List Token → Result Directive
unfolding skip_whitespace unquote parse_unsigned
parse_line tokens = line_from tokens (skip_whitespace tokens)

abbrev add_flag : Option ℕ → List ℕ → List ℕ
add_flag none fs = fs
add_flag (some f) fs = f ∷ fs

-- The numbers among the tokens that parse as `u32`.
unfoldable pub marker_flags : List Token → List ℕ
unfolding parse_unsigned
marker_flags [] = []
marker_flags (t ∷ rest) =
    let fs = marker_flags rest in
    if is_kind t TokenKind.number then add_flag (parse_unsigned (2 ^ 32 - 1) 10 t.text) fs else fs

abbrev pub marker_file : ℕ → List Token → Result Directive
marker_file n [] = ok (line n none)
marker_file n (t ∷ rest) =
    if is_kind t TokenKind.string_literal
    then (unquote t.text >>= λ f. ok (line_marker n f (marker_flags rest)))
    else ok (line n none)

-- Called on tokens that begin with a number.
unfoldable pub parse_line_marker : Token → List Token → Result Directive
unfolding skip_whitespace unquote parse_unsigned marker_flags
parse_line_marker t rest = marker_file (u32_or_zero t.text) (skip_whitespace rest)

abbrev drop_last_whitespace : Token → List Token → List Token
drop_last_whitespace t [] = if is_kind t TokenKind.whitespace then [] else t ∷ []
drop_last_whitespace t (u ∷ us) = t ∷ u ∷ us

unfoldable pub strip_whitespace_end : List Token → List Token
strip_whitespace_end [] = []
strip_whitespace_end (t ∷ rest) = drop_last_whitespace t (strip_whitespace_end rest)

unfoldable pub strip_whitespace_edges : List Token → List Token
unfolding strip_whitespace_end skip_whitespace
strip_whitespace_edges tokens = strip_whitespace_end (skip_whitespace tokens)

-- The match on the name of the directive.
abbrev pub dispatch : Text → List Token → Result Directive
dispatch name rest =
    if text_eq name (bytes "define")
    then parse_define rest
    else if text_eq name (bytes "undef")
    then ok (parse_undef rest)
    else if text_eq name (bytes "include")
    then ok (parse_include rest false)
    else if text_eq name (bytes "include_next")
    then ok (parse_include rest true)
    else if text_eq name (bytes "if")
    then ok (if_ (strip_whitespace_edges rest))
    else if text_eq name (bytes "ifdef")
    then ok (parse_ifdef rest)
    else if text_eq name (bytes "ifndef")
    then ok (parse_ifndef rest)
    else if text_eq name (bytes "elif")
    then ok (elif (strip_whitespace_edges rest))
    else if text_eq name (bytes "else")
    then ok else_
    else if text_eq name (bytes "endif")
    then ok endif
    else if text_eq name (bytes "error")
    then ok (error (collect_text rest))
    else if text_eq name (bytes "warning")
    then ok (warning (collect_text rest))
    else if text_eq name (bytes "pragma")
    then ok (pragma (strip_whitespace_edges rest))
    else if text_eq name (bytes "line")
    then parse_line rest
    else ok (unknown name rest)

abbrev pub directive_from : List Token → List Token → Result Directive
directive_from tokens [] = ok null
directive_from tokens (t ∷ rest) =
    if is_kind t TokenKind.number
    then parse_line_marker t rest
    else if is_kind t TokenKind.ident
    then dispatch t.text rest
    else ok (unknown [] tokens)

unfoldable pub parse_directive : List Token → Result Directive
unfolding skip_whitespace parse_define parse_undef parse_include parse_ifdef parse_ifndef
    strip_whitespace_edges collect_text parse_line parse_line_marker
parse_directive tokens = directive_from tokens (skip_whitespace tokens)
