-- ===== src/Preprocess/Directive/ParamLoop.antt =====
-- The loop over the parameters of a `#define` in src/preprocess/directive.rs, and the parameter lists
-- that are well formed.
use parc.Prelude.{
  ℕ, zero, suc, ◌<◌, ◌≤◌, ◌≡◌, refl, Bool, true, false, ◌&&◌, List, [], ◌∷◌, ◌↔◌, inl, inr, arith,
  if◌then◌else◌, Bool-cases, if_both,
}
use parc.Prelude.Lists.{length}
use parc.Prelude.Result.{ok, out_of_fuel}
use parc.Prelude.Text.{Text, bytes, text_eq, text_eq→eq}
use parc.Preprocess.Token.{Token, TokenKind, is_kind}
use parc.Preprocess.Directive.{
  skip_whitespace, skip_separators, two_dots, Params, Round, done, again, round, params,
  parse_define,
}

-- Whether the tokens behind the opening parenthesis are identifiers, commas and white space up to
-- a closing parenthesis, `...` or the end of the line.
abbrev pub ends : List Token → Bool
ends [] = true
ends (t ∷ rest) =
    let more = ends rest in
    if is_kind t TokenKind.whitespace
    then more
    else if text_eq t.text (bytes ")")
    then true
    else if text_eq t.text (bytes ".") && two_dots rest
    then true
    else if is_kind t TokenKind.ident
    then more
    else if text_eq t.text (bytes ",")
    then more
    else false

abbrev starts_white : List Token → Bool
starts_white [] = false
starts_white (t ∷ _) = is_kind t TokenKind.whitespace

skip_whitespace_facts :
    (ts : List Token)
    → (ends (skip_whitespace ts) ≡ ends ts)
      × (starts_white (skip_whitespace ts) ≡ false)
      × (length (skip_whitespace ts) ≤ length ts)
unfolding skip_whitespace
skip_whitespace_facts [] = (refl, refl, omega arith)
skip_whitespace_facts (t ∷ rest) =
    let (e, w, l) = skip_whitespace_facts rest in
    elim (Bool-cases (is_kind t TokenKind.whitespace)) [
      | inl y ↦ rw (y) (e, w, omega arith)
      | inr n ↦ rw n (rw n refl, n, omega arith)
    ]

comma_only :
    (x : Text)
    → text_eq x (bytes ",") ≡ true
    → (text_eq x (bytes ")") ≡ false) × (text_eq x (bytes ".") ≡ false)
comma_only x h = let e = text_eq→eq x (bytes ",") h in (rw e refl, rw e refl)

skip_separators_facts :
    (ts : List Token)
    → (ends (skip_separators ts) ≡ ends ts) × (length (skip_separators ts) ≤ length ts)
unfolding skip_separators
skip_separators_facts [] = (refl, omega arith)
skip_separators_facts (t ∷ rest) =
    let (e, l) = skip_separators_facts rest in (ground (arith, comma_only t.text), ground arith)

-- A token that is skipped as a separator is gone behind the call.
length-skip_separators_comma :
    (t : Token) (rest : List Token)
    → text_eq t.text (bytes ",") ≡ true
    → length (skip_separators (t ∷ rest)) ≤ length rest
unfolding skip_separators
length-skip_separators_comma t rest h = ground (arith, (skip_separators_facts rest).1)

-- The round ends the loop, or goes on with fewer tokens, at which the loop ends too.
abbrev Shrinks : ℕ → Round → Type 0
Shrinks n (done p) = Unit
Shrinks n (again names r) = (ends r ≡ true) × (length r < n)

round-Shrinks :
    (names : List Text) (ts : List Token)
    → starts_white ts ≡ false
    → ends ts ≡ true
    → Shrinks (length ts) (round names ts)
unfolding round
round-Shrinks names [] w e = tt
round-Shrinks names (t ∷ rest) w e =
    let (same, le) = skip_separators_facts rest in
    let P = Shrinks (suc (length rest)) in
    if_both P (text_eq t.text (bytes ")")) (λ _. tt)
      (λ n₁.
        if_both P (text_eq t.text (bytes ".") && two_dots rest) (λ _. tt)
          (λ n₂.
            if_both P (is_kind t TokenKind.ident) (λ i. (rw same (ground arith), omega arith))
              (λ n₃. (
                rw (skip_separators_facts (t ∷ rest)).0 e,
                omega (arith, length-skip_separators_comma t rest (ground arith)),
              ))))

-- The round goes on with tokens at which the loop never ends.
abbrev IsStuck : Round → Type 0
IsStuck (done p) = ⊥
IsStuck (again names r) = ends r ≡ false

round-IsStuck :
    (names : List Text) (ts : List Token)
    → starts_white ts ≡ false
    → ends ts ≡ false
    → IsStuck (round names ts)
unfolding round
round-IsStuck names [] w e = cc
round-IsStuck names (t ∷ rest) w e =
    if_both IsStuck (text_eq t.text (bytes ")")) (λ c. ground arith)
      (λ n₁.
        if_both IsStuck (text_eq t.text (bytes ".") && two_dots rest) (λ d. ground arith)
          (λ n₂.
            if_both IsStuck (is_kind t TokenKind.ident)
              (λ i. rw (skip_separators_facts rest).0 (ground arith))
              (λ n₃. rw (skip_separators_facts (t ∷ rest)).0 e)))

-- A round that goes on, behind the white space in front of it.
params_round :
    (f : ℕ) (names : List Text) (ts : List Token) (r : Round)
    → Shrinks (length ts) r
    → ((names' : List Text) (ts' : List Token)
        → length ts' < length ts
        → ends ts' ≡ true
        → (p : Params) × (params f names' ts' ≡ ok p))
    → round names (skip_whitespace ts) ≡ r
    → (p : Params) × (params (suc f) names ts ≡ ok p)
unfolding params
params_round f names ts (done p) s k e = (p, rw (e, params))
params_round f names ts (again names' r) s k e =
    let (p, q) = k names' r s.1 s.0 in (p, rw (e, params) q)

Shrinks-le : {m n : ℕ} (r : Round) → m ≤ n → Shrinks m r → Shrinks n r
Shrinks-le (done p) h s = tt
Shrinks-le (again names r) h s = (s.0, omega arith)

-- Where the list is well formed the loop ends, with a round to spare for each token.
pub params-ends :
    (f : ℕ) (names : List Text) (ts : List Token)
    → length ts < f
    → ends ts ≡ true
    → (p : Params) × (params f names ts ≡ ok p)
params-ends zero names ts h e = absurd (omega arith)
params-ends (suc f) names ts h e =
    let (same, white, le) = skip_whitespace_facts ts in
    params_round f names ts (round names (skip_whitespace ts))
      (Shrinks-le (round names (skip_whitespace ts)) le
        (round-Shrinks names (skip_whitespace ts) white (rw same e)))
      (λ names' ts' l e'. params-ends f names' ts' (omega arith) e') refl

params_stuck :
    (f : ℕ) (names : List Text) (ts : List Token) (r : Round)
    → IsStuck r
    → ((names' : List Text) (ts' : List Token)
        → ends ts' ≡ false
        → params f names' ts' ≡ out_of_fuel)
    → round names (skip_whitespace ts) ≡ r
    → params (suc f) names ts ≡ out_of_fuel
unfolding params
params_stuck f names ts (done p) s k e = absurd s
params_stuck f names ts (again names' r) s k e = rw (e, params) (k names' r s)

-- Where it is not, the loop never ends, whatever the fuel.
pub params-diverges :
    (f : ℕ) (names : List Text) (ts : List Token)
    → ends ts ≡ false
    → params f names ts ≡ out_of_fuel
params-diverges zero names ts e = unfold params in refl
params-diverges (suc f) names ts e =
    let (same, white, le) = skip_whitespace_facts ts in
    params_stuck f names ts (round names (skip_whitespace ts))
      (round-IsStuck names (skip_whitespace ts) white (rw same e))
      (λ names' ts' e'. params-diverges f names' ts' e') refl

-- No fuel is enough for the loop over the parameters.
abbrev pub Hangs : List Token → Type 0
Hangs ts = (f : ℕ) → params f [] ts ≡ out_of_fuel

-- For a `#define` whose name is directly followed by a parenthesis: no fuel is enough for the loop
-- over the parameters exactly where behind the parenthesis stands something other than identifiers,
-- commas and white space up to `)`, `...` or the end of the line, and exactly there the fuel of
-- `parse_define` runs out.
pub parse_define-diverges_iff :
    (name open_ : Token) (rest : List Token)
    → is_kind name TokenKind.whitespace ≡ false
    → is_kind name TokenKind.ident ≡ true
    → text_eq open_.text (bytes "(") ≡ true
    → (Hangs rest ↔ (ends rest ≡ false))
      × ((parse_define (name ∷ open_ ∷ rest) ≡ out_of_fuel) ↔ (ends rest ≡ false))
unfolding parse_define
parse_define-diverges_iff name open_ rest w i o = elim (Bool-cases (ends rest)) [
  | inl e ↦
      let (p, q) = params-ends (suc (length rest)) [] rest (omega arith) e in
      (
        (λ h. cc (h (suc (length rest)), q), λ h. cc (h, e)),
        (λ h. cc (rw (w, i, o, q) at h), λ h. cc (h, e)),
      )
  | inr e ↦ (
    (λ _. e, λ _ f. params-diverges f [] rest e),
    (λ _. e, λ _. rw (w, i, o, params-diverges (suc (length rest)) [] rest e)),
  )
]
