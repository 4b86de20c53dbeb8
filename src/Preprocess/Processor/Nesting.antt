-- ===== src/Preprocess/Processor/Nesting.antt =====
-- The invariant of the stack of conditionals in src/preprocess/processor.rs.
use parc.Prelude.{
  ℕ, zero, suc, ◌≡◌, refl, subst, Bool, true, false, List, [], ◌∷◌, arith, if◌then◌else◌,
  Bool-cases, inl, inr, if_cases,
}
use parc.Prelude.Result.{Result, ok, panic, out_of_fuel, ◌>>=◌, bind_inverts, ok-injective}
use parc.Preprocess.Token.{Token, TokenKind, is_kind}
use parc.Preprocess.Directive.{Directive, if_, ifdef, ifndef, elif, else_, endif, parse_directive}
use parc.Preprocess.Processor.{
  World, State, CondState, Handler, is_active, top_active, opened, apply_active, apply_directive,
  plain_token, push_cond, next_branch, last_branch, elif_on, else_on, endif_on, test_if,
  process_loop, split_line,
}

-- Each conditional remembers whether the branch around it is active. An active branch has been taken
-- and stands in an active branch. So the lines in front of the input are active exactly if every
-- conditional around them is.
abbrev pub WellNested : List CondState → Type 0
WellNested [] = Unit
WellNested (c ∷ cs) =
    (c.parent_active ≡ top_active cs)
    × (c.active ≡ true → (c.any_taken ≡ true) × (c.parent_active ≡ true))
    × WellNested cs

opened-WellNested :
    (b : Bool) (cs : List CondState) → WellNested cs → WellNested (opened (top_active cs) b ∷ cs)
opened-WellNested true cs h = (refl, λ e. (refl, e), h)
opened-WellNested false cs h = (refl, λ e. cc, h)

next_branch-WellNested :
    (c c' : CondState) (cs : List CondState) (test : Result Bool)
    → WellNested (c ∷ cs)
    → next_branch c test ≡ ok c'
    → WellNested (c' ∷ cs)
unfolding next_branch
next_branch-WellNested c c' cs (ok b) h e = (ground arith, λ a. ground arith, h.2)
next_branch-WellNested c c' cs panic h e = (ground arith, λ a. ground arith, h.2)
next_branch-WellNested c c' cs out_of_fuel h e = (ground arith, λ a. ground arith, h.2)

last_branch-WellNested :
    (c : CondState) (cs : List CondState) → WellNested (c ∷ cs) → WellNested (last_branch c ∷ cs)
unfolding last_branch
last_branch-WellNested c cs h = (ground arith, λ a. ground arith, h.2)

elif_on-WellNested :
    (cs cs' : List CondState) (test : Result Bool)
    → WellNested cs
    → elif_on cs test ≡ ok cs'
    → WellNested cs'
elif_on-WellNested [] cs' test h e = subst WellNested (ok-injective e) tt
elif_on-WellNested (c ∷ cs) cs' test h e =
    let (c', p, q) = bind_inverts (next_branch c test) _ e in
    subst WellNested (ok-injective q) (next_branch-WellNested c c' cs test h p)

else_on-WellNested : (cs : List CondState) → WellNested cs → WellNested (else_on cs)
else_on-WellNested [] h = tt
else_on-WellNested (c ∷ cs) h = last_branch-WellNested c cs h

endif_on-WellNested : (cs : List CondState) → WellNested cs → WellNested (endif_on cs)
endif_on-WellNested [] h = tt
endif_on-WellNested (c ∷ cs) h = h.2

abbrev pub Nested : State → Type 0
Nested s = WellNested s.cond_stack

push_cond-Nested : (b : Bool) (s : State) → Nested s → Nested (push_cond b s)
push_cond-Nested b s h = opened-WellNested b s.cond_stack h

-- The other directives leave the stack alone.
unless_active-Nested :
    (s s' : State) (m : Result World)
    → Nested s
    → (if is_active s then (m >>= λ w. ok (record s { world = w })) else ok s) ≡ ok s'
    → Nested s'
unless_active-Nested s s' m h e = elim (Bool-cases (is_active s)) [
  | inl a ↦ let (w, p, q) = bind_inverts m _ (rw a at e) in subst Nested (ok-injective q) h
  | inr a ↦ subst Nested (ok-injective (rw a at e)) h
]

module _ (checks : Bool) (handler : Handler) where
  -- Every directive keeps the conditionals well nested.
  pub apply_directive-Nested :
      (o : ℕ) (d : Directive) (s s' : State)
      → Nested s
      → apply_directive checks handler o d s ≡ ok s'
      → Nested s'
  unfolding apply_directive
  apply_directive-Nested o (if_ ts) s s' h e = elim (if_cases (is_active s) _ _ e) [
    | inl e₁ ↦
        let (b, p, q) = bind_inverts (test_if checks ts s.world) _ e₁ in
        subst Nested (ok-injective q) (push_cond-Nested b s h)
    | inr e₁ ↦ subst Nested (ok-injective e₁) (push_cond-Nested false s h)
  ]
  apply_directive-Nested o (ifdef name) s s' h e =
      subst Nested (ok-injective e) (push_cond-Nested _ s h)
  apply_directive-Nested o (ifndef name) s s' h e =
      subst Nested (ok-injective e) (push_cond-Nested _ s h)
  apply_directive-Nested o (elif ts) s s' h e =
      let (cs, p, q) = bind_inverts (elif_on s.cond_stack (test_if checks ts s.world)) _ e in
      subst Nested (ok-injective q) (elif_on-WellNested s.cond_stack cs _ h p)
  apply_directive-Nested o else_ s s' h e =
      subst Nested (ok-injective e) (else_on-WellNested s.cond_stack h)
  apply_directive-Nested o endif s s' h e =
      subst Nested (ok-injective e) (endif_on-WellNested s.cond_stack h)
  apply_directive-Nested o d s s' h e =
      unless_active-Nested s s' (apply_active handler o d s.world) h e

  plain_token-Nested : (t : Token) (s : State) → Nested s → Nested (plain_token t s)
  unfolding plain_token
  plain_token-Nested t s h = elim (Bool-cases (is_active s)) [ inl a ↦ rw a h | inr a ↦ rw a h ]

  -- Where the loop starts with well nested conditionals and returns, it leaves them well nested, over
  -- any input: also where an `#endif`, an `#else` or an `#elif` has no `#if`.
  pub process_loop-Nested :
      (f : ℕ) (ts : List Token) (s s' : State)
      → Nested s
      → process_loop checks handler f ts s ≡ ok s'
      → Nested s'
  unfolding process_loop
  process_loop-Nested zero ts s s' h e = cc
  process_loop-Nested (suc f) [] s s' h e = subst Nested (ok-injective e) h
  process_loop-Nested (suc f) (t ∷ rest) s s' h e = elim (Bool-cases (is_kind t TokenKind.hash)) [
    | inl y ↦
        let (d, p, e₁) = bind_inverts (parse_directive (split_line rest).0) _ (rw y at e) in
        let (s₁, q, e₂) = bind_inverts (apply_directive checks handler t.offset d s) _ e₁ in
        process_loop-Nested f (split_line rest).1 s₁ s' (apply_directive-Nested t.offset d s s₁ h q)
          e₂
    | inr n ↦ process_loop-Nested f rest (plain_token t s) s' (plain_token-Nested t s h) (rw n at e)
  ]
