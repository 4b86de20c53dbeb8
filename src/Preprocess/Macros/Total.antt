-- ===== src/Preprocess/Macros/Total.antt =====
-- The measure of the calls in src/preprocess/macros.rs: the names that are not painted yet.
use parc.Prelude.{
  ℕ, zero, suc, ◌+◌, ◌-◌, ◌<◌, ◌≤◌, ◌≡◌, refl, Bool, false, not, ◌&&◌, List, [], ◌∷◌, ◌++◌, Option,
  none, some, arith, if◌then◌else◌, Bool-cases, inl, inr,
}
use parc.Prelude.Lists.{length}
use parc.Prelude.Result.{Result, ok}
use parc.Prelude.Text.{Text, text_eq_iff}
use parc.Preprocess.Token.{Token, TokenKind, is_kind}
use parc.Preprocess.Directive.{skip_whitespace}
use parc.Preprocess.Macros.{
  MacroDef, MacroTable, lookup, get, len, collect_args, collect_from, collect_macro_args, invoke,
  step_macro, follow, substitute_round, substitute_loop, substitute_fn_macro, contains, Step, keep,
  replace, step, expand_loop, expand_with_paint, expand, hash_round, paste_round,
}

abbrev pub Returns {ℓ} : {A : Type ℓ} → Result A → Type ℓ
Returns {A = A} r = (a : A) × (r ≡ ok a)

pub length-skip_whitespace_le : (ts : List Token) → length (skip_whitespace ts) ≤ length ts
unfolding skip_whitespace
length-skip_whitespace_le [] = omega arith
length-skip_whitespace_le (t ∷ ts) = ground (arith, length-skip_whitespace_le ts)

-- A round of `substitute_fn_macro` takes a token of the body at least.
paste_round_le :
    (ps : List Text) (args : List (List Token)) (result rest : List Token)
    → length (paste_round ps args result rest).1 ≤ length rest
unfolding paste_round
paste_round_le ps args result rest = ground (arith, length-skip_whitespace_le rest)

hash_round_le :
    (ps : List Text) (args : List (List Token)) (result : List Token) (t : Token)
    (rest : List Token)
    → length (hash_round ps args result t rest).1 ≤ length rest
unfolding hash_round
hash_round_le ps args result t [] = omega arith
hash_round_le ps args result t (n ∷ []) = ground arith
hash_round_le ps args result t (n ∷ a ∷ b) = ground arith

pub substitute_round_le :
    (ps : List Text) (v : Bool) (args : List (List Token)) (result : List Token) (t : Token)
    (rest : List Token)
    → length (substitute_round ps v args result t rest).1 ≤ length rest
unfolding substitute_round
substitute_round_le ps v args result t rest =
    ground (arith, paste_round_le ps args result rest, hash_round_le ps args result t rest)

substitute_loop-Returns :
    (f : ℕ) (ps : List Text) (v : Bool) (args : List (List Token)) (result body : List Token)
    → length body < f
    → Returns (substitute_loop f ps v args result body)
unfolding substitute_loop
substitute_loop-Returns zero ps v args result body h = absurd (omega arith)
substitute_loop-Returns (suc f) ps v args result [] h = (result, refl)
substitute_loop-Returns (suc f) ps v args result (t ∷ rest) h =
    let (result', rest') = substitute_round ps v args result t rest in
    substitute_loop-Returns f ps v args result' rest'
      (omega (arith, substitute_round_le ps v args result t rest))

substitute_params-Returns :
    (def : MacroDef) (args : List (List Token)) (ps : Option (List Text))
    → def.params ≡ ps
    → Returns (substitute_fn_macro def args)
unfolding substitute_fn_macro
substitute_params-Returns def args none e = (def.body, rw e)
substitute_params-Returns def args (some ps) e =
    let (r, q) =
      substitute_loop-Returns (suc (length def.body)) ps def.is_variadic args [] def.body
        (omega arith) in
    (r, rw e q)

-- The body of a function-like macro is always substituted.
pub substitute_fn_macro-Returns :
    (def : MacroDef) (args : List (List Token)) → Returns (substitute_fn_macro def args)
substitute_fn_macro-Returns def args = substitute_params-Returns def args def.params refl

collect_args_le :
    (depth : ℕ) (args : List (List Token)) (arg ts : List Token) {out : List (List Token)}
    {left : List Token}
    → collect_args depth args arg ts ≡ some (out, left)
    → length left ≤ length ts
unfolding collect_args
collect_args_le depth args arg [] h = cc
collect_args_le depth args arg (t ∷ ts) {out} {left} h = ground (
  arith,
  collect_args_le (suc depth) args (arg ++ t ∷ []) ts {out = out} {left = left},
  collect_args_le (depth - 1) args (arg ++ t ∷ []) ts {out = out} {left = left},
  collect_args_le depth (args ++ arg ∷ []) [] ts {out = out} {left = left},
  collect_args_le depth args (arg ++ t ∷ []) ts {out = out} {left = left},
)

collect_from_le :
    {n : ℕ} (us : List Token) {out : List (List Token)} {left : List Token}
    → length us ≤ n
    → collect_from us ≡ some (out, left)
    → length left ≤ n
collect_from_le [] l e = cc
collect_from_le (t ∷ us) {out} {left} l e =
    ground (arith, collect_args_le 0 [] [] us {out = out} {left = left})

collect_macro_args_le :
    (ts : List Token) {out : List (List Token)} {left : List Token}
    → collect_macro_args ts ≡ some (out, left)
    → length left ≤ length ts
unfolding collect_macro_args
collect_macro_args_le ts h = collect_from_le (skip_whitespace ts) (length-skip_whitespace_le ts) h

-- A replacement goes on behind the invocation, and its name is defined and not painted.
abbrev Fits : MacroTable → List Text → Token → List Token → Step → Type 0
Fits table paint t rest keep = Unit
Fits table paint t rest (replace body rest') =
    (length rest' ≤ length rest)
    × (contains paint t.text ≡ false)
    × ((d : MacroDef) × (get t.text table ≡ some d))

-- How many definitions have a name that is not painted.
pub unpainted : List Text → List MacroDef → ℕ
unpainted paint [] = 0
unpainted paint (d ∷ ds) = (if contains paint d.name then 0 else 1) + unpainted paint ds

unpainted_le_length : (paint : List Text) (ds : List MacroDef) → unpainted paint ds ≤ length ds
unfolding unpainted
unpainted_le_length paint [] = omega arith
unpainted_le_length paint (d ∷ ds) = ground (arith, unpainted_le_length paint ds)

unpainted-cons_le :
    (k : Text) (paint : List Text) (ds : List MacroDef)
    → unpainted (k ∷ paint) ds ≤ unpainted paint ds
unfolding unpainted contains
unpainted-cons_le k paint [] = omega arith
unpainted-cons_le k paint (d ∷ ds) = ground (arith, unpainted-cons_le k paint ds)

unpainted-cons_lt :
    (k : Text) (paint : List Text) (ds : List MacroDef) {d : MacroDef}
    → contains paint k ≡ false
    → lookup k ds ≡ some d
    → unpainted (k ∷ paint) ds < unpainted paint ds
unfolding unpainted contains lookup
unpainted-cons_lt k paint [] c l = cc
unpainted-cons_lt k paint (b ∷ ds) {d} c l = ground (
  arith,
  unpainted-cons_le k paint ds,
  unpainted-cons_lt k paint ds {d = d},
  text_eq_iff b.name k,
  text_eq_iff k b.name,
)

invoke-Fits :
    (table : MacroTable) (paint : List Text) (t : Token) (rest : List Token) (def : MacroDef)
    (found : Option (List (List Token) × List Token))
    → collect_macro_args rest ≡ found
    → contains paint t.text ≡ false
    → get t.text table ≡ some def
    → (s : Step) × (invoke def found ≡ ok s) × Fits table paint t rest s
invoke-Fits table paint t rest def none e c g = (keep, refl, tt)
invoke-Fits table paint t rest def (some (args, rest')) e c g =
    let (body, b) = substitute_fn_macro-Returns def args in
    (replace body rest', rw b, (collect_macro_args_le rest e, c, (def, g)))

step_macro-Fits :
    (table : MacroTable) (paint : List Text) (t : Token) (rest : List Token)
    (found : Option MacroDef)
    → get t.text table ≡ found
    → contains paint t.text ≡ false
    → (s : Step) × (step_macro rest found ≡ ok s) × Fits table paint t rest s
step_macro-Fits table paint t rest none g c = (keep, refl, tt)
step_macro-Fits table paint t rest (some def) g c = by_params def.params refl
  where
    by_params :
        (ps : Option (List Text))
        → def.params ≡ ps
        → (s : Step) × (step_macro rest (some def) ≡ ok s) × Fits table paint t rest s
    by_params none e = (replace def.body rest, rw e, (omega arith, c, (def, g)))
    by_params (some ps) e =
        rw e (invoke-Fits table paint t rest def (collect_macro_args rest) refl c g)

step-Fits :
    (table : MacroTable) (paint : List Text) (t : Token) (rest : List Token)
    → (s : Step) × (step table paint t rest ≡ ok s) × Fits table paint t rest s
unfolding step
step-Fits table paint t rest =
    elim (Bool-cases (is_kind t TokenKind.ident && not (contains paint t.text))) [
      | inl y ↦ rw y (step_macro-Fits table paint t rest (get t.text table) refl (ground arith))
      | inr n ↦ rw n (keep, refl, tt)
    ]

pub measure : MacroTable → List Text → ℕ
measure table paint = unpainted paint table.macros

measure-cons_lt :
    (table : MacroTable) (paint : List Text) (k : Text) (d : MacroDef)
    → contains paint k ≡ false
    → get k table ≡ some d
    → measure table (k ∷ paint) < measure table paint
unfolding measure get
measure-cons_lt table paint k d c g = unpainted-cons_lt k paint table.macros c g

-- The body of a replacement is expanded under one more painted name, so with fewer left to paint.
follow-Returns :
    (table : MacroTable) (expand_body : List Text → List Token → Result (List Token))
    (go_on : List Token → Result (List Token)) (paint : List Text) (t : Token) (rest : List Token)
    (s : Step)
    → Fits table paint t rest s
    → ((p : List Text) (ts : List Token)
        → measure table p < measure table paint
        → Returns (expand_body p ts))
    → ((ts : List Token) → length ts ≤ length rest → Returns (go_on ts))
    → Returns (follow expand_body go_on paint t rest s)
follow-Returns table expand_body go_on paint t rest keep fits deeper further =
    let (r, q) = further rest (omega arith) in (t ∷ r, rw q)
follow-Returns table expand_body go_on paint t rest (replace body rest') fits deeper further =
    let (d, g) = fits.2 in
    let (e, p) = deeper (t.text ∷ paint) body (measure-cons_lt table paint t.text d fits.1 g) in
    let (r, q) = further rest' fits.0 in (e ++ r, rw (p, q))

expand_loop-Returns :
    (table : MacroTable) (expand_body : List Text → List Token → Result (List Token))
    (paint : List Text)
    → ((p : List Text) (ts : List Token)
        → measure table p < measure table paint
        → Returns (expand_body p ts))
    → (f : ℕ) (ts : List Token) → length ts < f
    → Returns (expand_loop table expand_body f paint ts)
unfolding expand_loop
expand_loop-Returns table expand_body paint deeper zero ts h = absurd (omega arith)
expand_loop-Returns table expand_body paint deeper (suc f) [] h = ([], refl)
expand_loop-Returns table expand_body paint deeper (suc f) (t ∷ rest) h =
    let (s, e, fits) = step-Fits table paint t rest in
    rw e (
      follow-Returns table expand_body (λ ts. expand_loop table expand_body f paint ts) paint t rest
        s fits deeper
        (λ ts l. expand_loop-Returns table expand_body paint deeper f ts (omega arith)))

-- `expand_with_paint` returns where its depth exceeds the number of names left to paint.
pub expand_with_paint-Returns :
    (table : MacroTable) (d : ℕ) (paint : List Text) (ts : List Token)
    → measure table paint < d
    → Returns (expand_with_paint table d paint ts)
unfolding expand_with_paint
expand_with_paint-Returns table zero paint ts h = absurd (omega arith)
expand_with_paint-Returns table (suc d) paint ts h =
    expand_loop-Returns table (λ p us. expand_with_paint table d p us) paint
      (λ p us l. expand_with_paint-Returns table d p us (omega arith)) (suc (length ts)) ts
      (omega arith)

-- Expansion ends with a result for every table, recursive definitions included, and every input.
pub expand-Returns :
    (table : MacroTable) (ts : List Token) → (r : List Token) × (expand table ts ≡ ok r)
unfolding expand measure len
expand-Returns table ts =
    expand_with_paint-Returns table (suc (len table)) [] ts
      (omega (arith, unpainted_le_length [] table.macros))
