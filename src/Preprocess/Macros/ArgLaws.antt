-- ===== src/Preprocess/Macros/ArgLaws.antt =====
-- How the arguments of an invocation are told apart by src/preprocess/macros.rs.
use parc.Prelude.{
  ℕ, suc, ◌-◌, ◌<◌, ◌≡◌, ◌≢◌, ne→==, refl, sym, ap, ◌∙◌, append-nil, Bool-cases, inl, inr, Bool,
  true, false, List, [], ◌∷◌, ◌++◌, map, some, arith, if◌then◌else◌, append_assoc,
}
use parc.Prelude.Lists.{All}
use parc.Prelude.Text.{Text, bytes, text_eq, text_eq→eq}
use parc.Preprocess.Token.{Token, TokenKind, is_kind}
use parc.Preprocess.Directive.{strip_whitespace_edges}
use parc.Preprocess.Macros.{collect_args, collect_macro_args, finish_args, drop_empty}

abbrev pub is_text : Token → Text → Bool
is_text t s = text_eq t.text s

-- The tokens close every parenthesis that they open, `depth` of them opened before, and hold no
-- comma outside of parentheses.
abbrev pub IsArgument : ℕ → List Token → Type 0
IsArgument depth [] = depth ≡ 0
IsArgument depth (t ∷ ts) =
    let inside = IsArgument (suc depth) ts in
    let outside = (0 < depth) × IsArgument (depth - 1) ts in
    let comma = (0 < depth) × IsArgument depth ts in
    let other = IsArgument depth ts in
    if text_eq t.text (bytes "(")
    then inside
    else if text_eq t.text (bytes ")")
    then outside
    else if text_eq t.text (bytes ",")
    then comma
    else other

pos_ne : {n : ℕ} → 0 < n → n ≢ 0
pos_ne h = omega arith

-- The loop takes an argument whole, and goes on at depth 0.
collect_args-argument :
    (depth : ℕ) (args : List (List Token)) (arg a rest : List Token)
    → IsArgument depth a
    → collect_args depth args arg (a ++ rest) ≡ collect_args 0 args (arg ++ a) rest
unfolding collect_args
collect_args-argument depth args arg [] rest h =
    ap (λ d. collect_args d args arg rest) h
    ∙ ap (λ a. collect_args 0 args a rest) (sym (append-nil arg))
collect_args-argument depth args arg (t ∷ ts) rest h =
    let same = ap (λ x. collect_args 0 args x rest) (append_assoc arg (t ∷ []) ts) in
    elim (Bool-cases (is_text t (bytes "("))) [
      | inl o ↦
          rw o (collect_args-argument (suc depth) args (arg ++ t ∷ []) ts rest (rw o at h) ∙ same)
      | inr o ↦ elim (Bool-cases (is_text t (bytes ")"))) [
        | inl c ↦
            let (p, k) = rw (o, c) at h in
            rw (o, c, ne→== (pos_ne p))
              (collect_args-argument (depth - 1) args (arg ++ t ∷ []) ts rest k ∙ same)
        | inr c ↦ elim (Bool-cases (is_text t (bytes ","))) [
          | inl m ↦
              let (p, k) = rw (o, c, m) at h in
              rw (o, c, m, ne→== (pos_ne p))
                (collect_args-argument depth args (arg ++ t ∷ []) ts rest k ∙ same)
          | inr m ↦
              rw (o, c, m)
                (collect_args-argument depth args (arg ++ t ∷ []) ts rest (rw (o, c, m) at h)
                  ∙ same)
        ]
      ]
    ]

-- An invocation as it is written behind its name: the arguments in parentheses, with commas between
-- them, in front of anything.
abbrev pub invocation : Token → Token → List Token → List (List Token) → List Token → List Token
invocation comma close a [] rest = a ++ close ∷ rest
invocation comma close a (b ∷ bs) rest = a ++ comma ∷ invocation comma close b bs rest

at_close :
    (close : Token) (args : List (List Token)) (a rest : List Token)
    → is_text close (bytes ")") ≡ true
    → collect_args 0 args a (close ∷ rest) ≡ some (finish_args (args ++ a ∷ []), rest)
unfolding collect_args
at_close close args a rest c = let e = text_eq→eq close.text (bytes ")") c in rw e refl

at_comma :
    (comma : Token) (args : List (List Token)) (a rest : List Token)
    → is_text comma (bytes ",") ≡ true
    → collect_args 0 args a (comma ∷ rest) ≡ collect_args 0 (args ++ a ∷ []) [] rest
unfolding collect_args
at_comma comma args a rest m = let e = text_eq→eq comma.text (bytes ",") m in rw e refl

collect_args-invocation :
    (comma close : Token) (args : List (List Token)) (a : List Token) (bs : List (List Token))
    (rest : List Token)
    → is_text comma (bytes ",") ≡ true
    → is_text close (bytes ")") ≡ true
    → IsArgument 0 a
    → All (IsArgument 0) bs
    → collect_args 0 args [] (invocation comma close a bs rest)
      ≡ some (finish_args (args ++ a ∷ bs), rest)
collect_args-invocation comma close args a [] rest m c ha hb =
    collect_args-argument 0 args [] a (close ∷ rest) ha ∙ at_close close args a rest c
collect_args-invocation comma close args a (b ∷ bs) rest m c ha hb =
    collect_args-argument 0 args [] a (comma ∷ invocation comma close b bs rest) ha
    ∙ at_comma comma args a (invocation comma close b bs rest) m
    ∙ collect_args-invocation comma close (args ++ a ∷ []) b bs rest m c hb.0 hb.1
    ∙ ap (λ out. some (finish_args out, rest)) (append_assoc args (a ∷ []) (b ∷ bs))

-- An invocation, its arguments balanced in their parentheses and without a comma outside of them,
-- gives back the arguments, each without the white space at its ends, and what stands behind it. One
-- empty argument counts as none.
pub collect_macro_args-invocation :
    (open_ comma close : Token) (a : List Token) (bs : List (List Token)) (rest : List Token)
    → is_kind open_ TokenKind.whitespace ≡ false
    → is_text open_ (bytes "(") ≡ true
    → is_text comma (bytes ",") ≡ true
    → is_text close (bytes ")") ≡ true
    → IsArgument 0 a
    → All (IsArgument 0) bs
    → collect_macro_args (open_ ∷ invocation comma close a bs rest)
      ≡ some (drop_empty (map strip_whitespace_edges (a ∷ bs)), rest)
unfolding collect_macro_args finish_args
collect_macro_args-invocation open_ comma close a bs rest w o m c ha hb =
    rw (w, o) (collect_args-invocation comma close [] a bs rest m c ha hb)
