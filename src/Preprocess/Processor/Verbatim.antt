-- ===== src/Preprocess/Processor/Verbatim.antt =====
-- A source without directives and comments through the whole of `preprocess` in src/preprocess/
-- processor.rs, and the text of its tokens.
use parc.Prelude.{
  ==_iff, ℕ, zero, suc, ◌<◌, ◌≡◌, refl, sym, ap, ◌∙◌, Bool, true, false, List, [], ◌∷◌, ◌++◌, some,
  arith, subst, append-nil, append_assoc, Bool-cases, inl, inr,
}
use parc.Prelude.Lists.{length, All}
use parc.Prelude.Result.{ok}
use parc.Prelude.Text.{Text, IsAscii}
use parc.Preprocess.Token.{Token, TokenKind, is_kind, tag}
use parc.Preprocess.Lexer.{tokenize, splice_lines}
use parc.Preprocess.Lexer.Lossless.{Covers, finished, piece, tokenize-Covers}
use parc.Preprocess.Macros
use parc.Preprocess.Macros.{MacroTable, is_defined, expand, get, lookup}
use parc.Preprocess.Macros.Inert.{IsInert, expand-IsInert}
use parc.Preprocess.Processor.{
  State, World, initial, emitted, plain_token, process_loop, process_inner, preprocess,
  tokens_to_text, no_includes, push_tokens, is_active,
}

Covers-text :
    {pos : ℕ} {input : Text} {ts : List Token} → Covers pos input ts → tokens_to_text ts ≡ input
unfolding tokens_to_text
Covers-text finished = refl
Covers-text (piece {t = t} k l n o e c) = ap (λ x. t.text ++ x) (Covers-text c) ∙ sym e

-- Neither the start of a directive nor a comment.
abbrev pub IsPlain : Token → Type 0
IsPlain t =
    (is_kind t TokenKind.hash ≡ false)
    × (is_kind t TokenKind.line_comment ≡ false)
    × (is_kind t TokenKind.block_comment ≡ false)

-- A newline is the byte.
abbrev HasNewlines : Token → Type 0
HasNewlines t = tag t.kind ≡ tag TokenKind.newline → t.text ≡ 0x0a ∷ []

Covers-HasNewlines :
    {pos : ℕ} {input : Text} {ts : List Token} → Covers pos input ts → All HasNewlines ts
Covers-HasNewlines finished = (λ e. cc, tt)
Covers-HasNewlines (piece k l n o e c) = (n, Covers-HasNewlines c)

-- What a plain token puts out has its text, and names no macro of an empty table.
emitted-text : (t : Token) → IsPlain t → HasNewlines t → tokens_to_text (emitted t) ≡ t.text
unfolding tokens_to_text
emitted-text t (h, l, b) n =
    rw (l, b)
      (elim (Bool-cases (is_kind t TokenKind.newline)) [
        | inl y ↦ rw y (sym (n ((==_iff _ _).0 y)))
        | inr o ↦ rw o (append-nil t.text)
      ])

IsInert-new : (t : Token) → IsInert Macros.new t
unfolding is_defined get lookup
IsInert-new t = ground arith

All-IsInert-new : (ts : List Token) → All (IsInert Macros.new) ts
All-IsInert-new [] = tt
All-IsInert-new (t ∷ ts) = (IsInert-new t, All-IsInert-new ts)

tokens_to_text-append :
    (ts us : List Token) → tokens_to_text (ts ++ us) ≡ tokens_to_text ts ++ tokens_to_text us
unfolding tokens_to_text
tokens_to_text-append [] us = refl
tokens_to_text-append (t ∷ ts) us =
    ap (λ x. t.text ++ x) (tokens_to_text-append ts us)
    ∙ sym (append_assoc t.text (tokens_to_text ts) (tokens_to_text us))

-- The loop adds the text of each token to the output, and changes nothing else.
process_loop-IsPlain :
    (checks : Bool) (f : ℕ) (ts : List Token) (s : State)
    → length ts < f
    → All IsPlain ts
    → All HasNewlines ts
    → is_active s ≡ true
    → (s' : State) × (process_loop checks no_includes f ts s ≡ ok s')
      × (s'.world.macros ≡ s.world.macros)
      × (tokens_to_text s'.world.tokens ≡ tokens_to_text s.world.tokens ++ tokens_to_text ts)
unfolding process_loop tokens_to_text plain_token
process_loop-IsPlain checks zero ts s l p n a = absurd (omega arith)
process_loop-IsPlain checks (suc f) [] s l p n a = (s, refl, refl, sym (append-nil _))
process_loop-IsPlain checks (suc f) (t ∷ ts) s l p n a =
    let s₁ : State = record s { world = push_tokens (emitted t) s.world } in
    let (s', e, m, x) = process_loop-IsPlain checks f ts s₁ (omega arith) p.1 n.1 a in
    (
      s',
      rw (p.0.0, a) e,
      m,
      x
          ∙ ap (λ y. y ++ tokens_to_text ts)
              (tokens_to_text-append s.world.tokens (emitted t)
                ∙ ap (λ y. tokens_to_text s.world.tokens ++ y) (emitted-text t p.0 n.0))
          ∙ append_assoc (tokens_to_text s.world.tokens) t.text (tokens_to_text ts),
    )

-- An ASCII source of which no token starts a directive or is a comment passes `preprocess` with a
-- result, and the text of its tokens is the source with its lines spliced.
pub preprocess-IsPlain :
    (checks : Bool) (source : Text) (ts : List Token)
    → IsAscii source
    → tokenize source ≡ some ts
    → All IsPlain ts
    → (w : World) × (preprocess checks source ≡ ok w)
      × (tokens_to_text w.tokens ≡ splice_lines source)
unfolding preprocess process_inner tokens_to_text
preprocess-IsPlain checks source ts a e p =
    let (ts', e', c) = tokenize-Covers source a in
    let same : ts' ≡ ts = cc (e, e') in
    let (s', run, macros, text) =
      process_loop-IsPlain checks (suc (length ts)) ts (initial Macros.new) (omega arith) p
        (subst (All HasNewlines) same (Covers-HasNewlines c)) refl in
    (
      record s'.world { tokens = s'.world.tokens },
      rw
          (
            e,
            run,
            macros,
            expand-IsInert Macros.new s'.world.tokens (All-IsInert-new s'.world.tokens),
          )
          refl,
      text ∙ subst (λ us. tokens_to_text us ≡ splice_lines source) same (Covers-text c),
    )
