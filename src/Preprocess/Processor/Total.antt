-- ===== src/Preprocess/Processor/Total.antt =====
-- The end of the loop of `process_inner` in src/preprocess/processor.rs.
use parc.Prelude.{
  ℕ, zero, suc, ◌≤◌, ◌<◌, ◌≡◌, ◌≢◌, refl, ap, not, ◌||◌, Bool, true, false, List, [], ◌∷◌, arith,
  if◌then◌else◌, Bool-cases, inl, inr,
}
use parc.Prelude.Result.{Result, ok, panic, out_of_fuel, ◌>>=◌}
use parc.Preprocess.Token.{Token, TokenKind, is_kind}
use parc.Preprocess.Directive.{
  Directive, include_computed, if_, ifdef, ifndef, elif, else_, endif, parse_directive,
}
use parc.Preprocess.Directive.Total.{is_well_formed, parse_directive-ends}
use parc.Preprocess.Macros.{MacroTable}
use parc.Preprocess.Macros.Total.{expand-Returns}
use parc.Preprocess.Expr.Total.{eval_condition-ends}
use parc.Preprocess.Processor.{
  World, State, CondState, Handler, is_active, apply_active, apply_directive, plain_token,
  next_branch, elif_on, test_if, process_loop, process_inner, split_line, initial, is_closed,
}
use parc.Prelude.Lists.{length}

test_if-ends : (checks : Bool) (ts : List Token) (w : World) → test_if checks ts w ≢ out_of_fuel
unfolding test_if
test_if-ends checks ts w = eval_condition-ends checks w.macros ts

apply_active-ends :
    (handler : Handler) (o : ℕ) (d : Directive) (w : World)
    → apply_active handler o d w ≢ out_of_fuel
unfolding apply_active
apply_active-ends handler o (include_computed ts n) w =
    let (r, e) = expand-Returns w.macros ts in rw e (cc)
apply_active-ends handler o d w = ground arith

bind-ends {ℓ κ} :
    {A : Type ℓ} {B : Type κ} (m : Result A) (f : A → B)
    → m ≢ out_of_fuel
    → (m >>= λ a. ok (f a)) ≢ out_of_fuel
bind-ends (ok a) f n = cc
bind-ends panic f n = cc
bind-ends out_of_fuel f n = absurd (n refl)

if_ends {ℓ} :
    {A : Type ℓ} (b : Bool) (x y : Result A)
    → x ≢ out_of_fuel
    → y ≢ out_of_fuel
    → (if b then x else y) ≢ out_of_fuel
if_ends true x y p q = p
if_ends false x y p q = q

next_branch-ends :
    (c : CondState) (r : Result Bool) → r ≢ out_of_fuel → next_branch c r ≢ out_of_fuel
unfolding next_branch
next_branch-ends c r n = if_ends (is_closed c) (ok _) _ (cc) (bind-ends r _ n)

elif_on-ends :
    (cs : List CondState) (r : Result Bool) → r ≢ out_of_fuel → elif_on cs r ≢ out_of_fuel
elif_on-ends [] r n = cc
elif_on-ends (c ∷ cs) r n = bind-ends (next_branch c r) _ (next_branch-ends c r n)

apply_directive-ends :
    (checks : Bool) (handler : Handler) (o : ℕ) (d : Directive) (s : State)
    → apply_directive checks handler o d s ≢ out_of_fuel
unfolding apply_directive
apply_directive-ends checks handler o (if_ ts) s =
    if_ends (is_active s) _ (ok _)
      (bind-ends (test_if checks ts s.world) _ (test_if-ends checks ts s.world)) (cc)
apply_directive-ends checks handler o (ifdef _) s = cc
apply_directive-ends checks handler o (ifndef _) s = cc
apply_directive-ends checks handler o (elif ts) s =
    bind-ends (elif_on s.cond_stack (test_if checks ts s.world)) _
      (elif_on-ends s.cond_stack _ (test_if-ends checks ts s.world))
apply_directive-ends checks handler o else_ s = cc
apply_directive-ends checks handler o endif s = cc
apply_directive-ends checks handler o d s =
    if_ends (is_active s) _ (ok _)
      (bind-ends (apply_active handler o d s.world) _ (apply_active-ends handler o d s.world)) (cc)

-- The tokens in front of the first newline.
abbrev pub until_newline : List Token → List Token
until_newline [] = []
until_newline (t ∷ rest) =
    let line = until_newline rest in if is_kind t TokenKind.newline then [] else t ∷ line

-- Every `#define` of the input has a well-formed parameter list, if any. `in_line` tells whether the
-- input is behind the `#` of a directive, in its line.
abbrev pub AreWellFormed : (in_line : Bool) → List Token → Type 0
AreWellFormed in_line [] = Unit
AreWellFormed true (t ∷ rest) = AreWellFormed (not (is_kind t TokenKind.newline)) rest
AreWellFormed false (t ∷ rest) =
    ((not (is_kind t TokenKind.hash) || is_well_formed (until_newline rest)) ≡ true)
    × AreWellFormed (is_kind t TokenKind.hash) rest

-- `split_line` makes progress: nothing of the line is read again.
split_line_facts :
    (ts : List Token)
    → ((split_line ts).0 ≡ until_newline ts)
      × (length (split_line ts).1 ≤ length ts)
      × (AreWellFormed true ts → AreWellFormed false (split_line ts).1)
unfolding split_line
split_line_facts [] = (refl, omega arith, λ d. tt)
split_line_facts (t ∷ rest) =
    let (line, le, behind) = split_line_facts rest in
    elim (Bool-cases (is_kind t TokenKind.newline)) [
      | inl y ↦ rw y (refl, omega arith, λ d. d)
      | inr n ↦ rw n (ap (λ l. t ∷ l) line, omega arith, behind)
    ]

bind_next-ends {ℓ κ} :
    {A : Type ℓ} {B : Type κ} (m : Result A) (f : A → Result B)
    → m ≢ out_of_fuel
    → ((a : A) → f a ≢ out_of_fuel)
    → (m >>= f) ≢ out_of_fuel
bind_next-ends (ok a) f n k = k a
bind_next-ends panic f n k = cc
bind_next-ends out_of_fuel f n k = absurd (n refl)

module _ (checks : Bool) (handler : Handler) where
  -- Where every `#define` is well formed, the loop ends on a round for each token.
  process_loop-ends :
      (f : ℕ) (ts : List Token) (s : State)
      → length ts < f
      → AreWellFormed false ts
      → process_loop checks handler f ts s ≢ out_of_fuel
  unfolding process_loop
  process_loop-ends zero ts s l d = absurd (omega arith)
  process_loop-ends (suc f) [] s l d = cc
  process_loop-ends (suc f) (t ∷ rest) s l (start, inner) =
      elim (Bool-cases (is_kind t TokenKind.hash)) [
        | inl y ↦
            let (line, le, behind) = split_line_facts rest in
            let go_on = process_loop checks handler f (split_line rest).1 in
            rw (y, line)
              (bind_next-ends (parse_directive (until_newline rest)) _
                (parse_directive-ends (until_newline rest) (rw y at start))
                (λ p.
                  bind_next-ends (apply_directive checks handler t.offset p s) go_on
                    (apply_directive-ends checks handler t.offset p s)
                    (λ s'.
                      process_loop-ends f (split_line rest).1 s' (omega arith)
                        (behind (rw y at inner)))))
        | inr n ↦ rw n (process_loop-ends f rest (plain_token t s) (omega arith) (rw n at inner))
      ]

  -- The processor ends, with a result or a panic, on every input in which each line behind a `#` is
  -- no `#define` of a function-like macro, or has a parameter list of identifiers, commas and white
  -- space up to `)`, `...` or the end of the line: a round for each token and one more are enough.
  pub process_inner-ends :
      (ts : List Token) (table : MacroTable)
      → AreWellFormed false ts
      → process_inner checks handler ts table ≢ out_of_fuel
  unfolding process_inner
  process_inner-ends ts table d =
      bind_next-ends (process_loop checks handler (suc (length ts)) ts (initial table)) _
        (process_loop-ends (suc (length ts)) ts (initial table) (omega arith) d)
        (λ s. let (r, e) = expand-Returns s.world.macros s.world.tokens in rw e (cc))
