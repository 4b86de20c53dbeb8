-- ===== src/Preprocess/Token.antt =====
-- src/preprocess/token.rs: preprocessor tokens.
use parc.Prelude.{ℕ, Bool, ◌==◌}
use parc.Prelude.Text.{Text}

pub data TokenKind : Type 0 where
  ident number string_literal char_literal hash hash_hash whitespace newline : TokenKind
  line_comment block_comment punct eof other : TokenKind

pub record Token : Type 0 where
  pub kind : TokenKind
  pub text : Text
  pub offset : ℕ

-- The derived `==` of the fieldless enum, by the position of the variant.
abbrev pub tag : TokenKind → ℕ
tag ident = 0
tag number = 1
tag string_literal = 2
tag char_literal = 3
tag hash = 4
tag hash_hash = 5
tag whitespace = 6
tag newline = 7
tag line_comment = 8
tag block_comment = 9
tag punct = 10
tag eof = 11
tag other = 12

abbrev pub is_kind : Token → TokenKind → Bool
is_kind t k = tag t.kind == tag k
