-- ===== src/Preprocess/Processor/Groups.antt =====
-- Conditional groups as a tree, what C means by them, and the lines that they stand for, which
-- src/preprocess/processor.rs takes one after the other.
use parc.Prelude.{
  ℕ, ◌≡◌, refl, ◌∙◌, Bool, true, false, List, [], ◌∷◌, ◌++◌, if◌then◌else◌, append_assoc,
}
use parc.Prelude.Result.{Result, ok, ◌>>=◌, bind_assoc, bind_congr}
use parc.Prelude.Text.{Text}
use parc.Preprocess.Token.{Token}
use parc.Preprocess.Directive.{Directive, if_, ifdef, ifndef, elif, else_, endif}
use parc.Preprocess.Processor.{
  World, State, CondState, Handler, is_active, top_active, opened, apply_active, apply_directive,
  plain_token, emitted, push_tokens, is_closed, next_branch, last_branch, test_if, test_ifdef,
  test_ifndef,
}
use parc.Preprocess.Processor.Events.{Event, plain, directive, run}

-- The tests that open a conditional.
pub data Opener : Type 0 where
  on_if : List Token → Opener
  on_ifdef on_ifndef : Text → Opener

abbrev pub is_conditional : Directive → Bool
is_conditional (if_ _) = true
is_conditional (ifdef _) = true
is_conditional (ifndef _) = true
is_conditional (elif _) = true
is_conditional else_ = true
is_conditional endif = true
is_conditional _ = false

-- A group of lines, and the branches of a conditional behind its first one.
mutual
  pub data Group : Type 0 where
    nil : Group
    token : Token → Group → Group
    line : ℕ → (d : Directive) → is_conditional d ≡ false → Group → Group
    cond : ℕ → Opener → Group → Branches → Group → Group

  pub data Branches : Type 0 where
    end : ℕ → Branches
    otherwise : ℕ → Group → ℕ → Branches
    or_if : ℕ → List Token → Group → Branches → Branches

abbrev pub opener : Opener → Directive
opener (on_if ts) = if_ ts
opener (on_ifdef name) = ifdef name
opener (on_ifndef name) = ifndef name

-- The lines in their order.
mutual
  pub flatten : Group → List Event
  flatten nil = []
  flatten (token t g) = plain t ∷ flatten g
  flatten (line o d _ g) = directive o d ∷ flatten g
  flatten (cond o c body bs g) =
      directive o (opener c) ∷ (flatten body ++ (flatten_branches bs ++ flatten g))

  pub flatten_branches : Branches → List Event
  flatten_branches (end o) = directive o endif ∷ []
  flatten_branches (otherwise o body e) =
      directive o else_ ∷ (flatten body ++ directive e endif ∷ [])
  flatten_branches (or_if o ts body bs) =
      directive o (elif ts) ∷ (flatten body ++ flatten_branches bs)

module _ (checks : Bool) (handler : Handler) where
  abbrev pub test : Opener → World → Result Bool
  test (on_if ts) w = test_if checks ts w
  test (on_ifdef name) w = ok (test_ifdef name w)
  test (on_ifndef name) w = ok (test_ifndef name w)

  -- What a group means: of a conditional the first branch whose test holds, and no other; the tests
  -- behind it are not evaluated.
  mutual
    pub meaning : Group → World → Result World
    meaning nil w = ok w
    meaning (token t g) w = meaning g (push_tokens (emitted t) w)
    meaning (line o d _ g) w = apply_active handler o d w >>= λ w'. meaning g w'
    meaning (cond o c body bs g) w =
        let first = meaning body w in
        let later = meaning_branches bs w in
        (test c w >>= λ b. if b then first else later) >>= λ w'. meaning g w'

    pub meaning_branches : Branches → World → Result World
    meaning_branches (end o) w = ok w
    meaning_branches (otherwise o body e) w = meaning body w
    meaning_branches (or_if o ts body bs) w =
        let first = meaning body w in
        let later = meaning_branches bs w in test_if checks ts w >>= λ b. if b then first else later

  abbrev state : World → List CondState → State
  state w cs = record { world = w; cond_stack = cs }

  line-inactive :
      (o : ℕ) (d : Directive) (w : World) (cs : List CondState)
      → is_conditional d ≡ false
      → top_active cs ≡ false
      → apply_directive checks handler o d (state w cs) ≡ ok (state w cs)
  unfolding apply_directive
  line-inactive o (if_ ts) w cs n i = cc
  line-inactive o (ifdef _) w cs n i = cc
  line-inactive o (ifndef _) w cs n i = cc
  line-inactive o (elif _) w cs n i = cc
  line-inactive o else_ w cs n i = cc
  line-inactive o endif w cs n i = cc
  line-inactive o _ w cs n i = rw i

  line-active :
      (o : ℕ) (d : Directive) (w : World) (cs : List CondState)
      → is_conditional d ≡ false
      → top_active cs ≡ true
      → apply_directive checks handler o d (state w cs)
        ≡ (apply_active handler o d w >>= λ w'. ok (state w' cs))
  unfolding apply_directive
  line-active o (if_ ts) w cs n i = cc
  line-active o (ifdef _) w cs n i = cc
  line-active o (ifndef _) w cs n i = cc
  line-active o (elif _) w cs n i = cc
  line-active o else_ w cs n i = cc
  line-active o endif w cs n i = cc
  line-active o _ w cs n i = rw i

  opener-inactive :
      (o : ℕ) (c : Opener) (w : World) (cs : List CondState)
      → top_active cs ≡ false
      → apply_directive checks handler o (opener c) (state w cs)
        ≡ ok (state w (opened false false ∷ cs))
  unfolding apply_directive
  opener-inactive o (on_if ts) w cs i = rw i
  opener-inactive o (on_ifdef ts) w cs i = rw i
  opener-inactive o (on_ifndef ts) w cs i = rw i

  opener-active :
      (o : ℕ) (c : Opener) (w : World) (cs : List CondState)
      → top_active cs ≡ true
      → apply_directive checks handler o (opener c) (state w cs)
        ≡ (test c w >>= λ b. ok (state w (opened true b ∷ cs)))
  unfolding apply_directive
  opener-active o (on_if ts) w cs i = rw i
  opener-active o (on_ifdef ts) w cs i = rw i
  opener-active o (on_ifndef ts) w cs i = rw i

  abbrev runs : List Event → World → List CondState → Result State
  runs es w cs = run checks handler es (state w cs)

  -- The branches behind one that was taken, or of a dead conditional, change nothing.
  mutual
    unfolding run flatten apply_directive next_branch last_branch plain_token

    skip_group :
        (g : Group) (rest : List Event) (w : World) (cs : List CondState)
        → top_active cs ≡ false
        → runs (flatten g ++ rest) w cs ≡ runs rest w cs
    skip_group nil rest w cs i = refl
    skip_group (token t g) rest w cs i = rw i (skip_group g rest w cs i)
    skip_group (line o d n g) rest w cs i =
        rw (line-inactive o d w cs n i) (skip_group g rest w cs i)
    skip_group (cond o c body bs g) rest w cs i =
        rw (opener-inactive o c w cs i, append_assoc, append_assoc)
          (skip_group body (flatten_branches bs ++ (flatten g ++ rest)) w (opened false false ∷ cs)
              refl
            ∙ skip_branches bs (flatten g ++ rest) w (opened false false) cs refl
            ∙ skip_group g rest w cs i)

    skip_branches :
        (bs : Branches) (rest : List Event) (w : World) (c : CondState) (cs : List CondState)
        → is_closed c ≡ true
        → runs (flatten_branches bs ++ rest) w (c ∷ cs) ≡ runs rest w cs
    skip_branches (end o) rest w c cs k = refl
    skip_branches (otherwise o body e) rest w c cs k =
        rw (k, append_assoc)
          (skip_group body (directive e endif ∷ rest) w (record c { active = false } ∷ cs) refl)
    skip_branches (or_if o ts body bs) rest w c cs k =
        rw (k, append_assoc)
          (skip_group body (flatten_branches bs ++ rest) w (record c { active = false } ∷ cs) refl
            ∙ skip_branches bs rest w (record c { active = false }) cs k)

  -- The branches behind one that was not taken do what the rest of the conditional means.
  mutual
    unfolding run flatten meaning apply_directive next_branch last_branch plain_token

    run_group :
        (g : Group) (rest : List Event) (w : World) (cs : List CondState)
        → top_active cs ≡ true
        → runs (flatten g ++ rest) w cs ≡ (meaning g w >>= λ w'. runs rest w' cs)
    run_group nil rest w cs a = refl
    run_group (token t g) rest w cs a = rw a (run_group g rest (push_tokens (emitted t) w) cs a)
    run_group (line o d n g) rest w cs a =
        rw (line-active o d w cs n a, bind_assoc, bind_assoc)
          (bind_congr (apply_active handler o d w) (λ w'. run_group g rest w' cs a))
    run_group (cond o c body bs g) rest w cs a =
        rw
          (opener-active o c w cs a, append_assoc, append_assoc, bind_assoc, bind_assoc, bind_assoc)
          (bind_congr (test c w) (elim [
            | true ↦
                run_group body (flatten_branches bs ++ (flatten g ++ rest)) w
                  (opened true true ∷ cs) refl
                ∙ bind_congr (meaning body w) (λ w'.
                  skip_branches bs (flatten g ++ rest) w' (opened true true) cs refl
                  ∙ run_group g rest w' cs a)
            | false ↦
                skip_group body (flatten_branches bs ++ (flatten g ++ rest)) w
                  (opened true false ∷ cs) refl
                ∙ run_branches bs (flatten g ++ rest) w (opened true false) cs refl
                ∙ bind_congr (meaning_branches bs w) (λ w'. run_group g rest w' cs a)
          ]))

    run_branches :
        (bs : Branches) (rest : List Event) (w : World) (c : CondState) (cs : List CondState)
        → is_closed c ≡ false
        → runs (flatten_branches bs ++ rest) w (c ∷ cs)
          ≡ (meaning_branches bs w >>= λ w'. runs rest w' cs)
    run_branches (end o) rest w c cs k = refl
    run_branches (otherwise o body e) rest w c cs k =
        rw (k, append_assoc)
          (run_group body (directive e endif ∷ rest) w
            (record c { active = true; any_taken = true } ∷ cs) refl)
    run_branches (or_if o ts body bs) rest w c cs k =
        rw (k, append_assoc, bind_assoc, bind_assoc, bind_assoc, bind_assoc)
          (bind_congr (test_if checks ts w) (elim [
            | true ↦
                run_group body (flatten_branches bs ++ rest) w
                  (record c { active = true; any_taken = true } ∷ cs) refl
                ∙ bind_congr (meaning body w) (λ w'.
                  skip_branches bs rest w' (record c { active = true; any_taken = true }) cs refl)
            | false ↦
                skip_group body (flatten_branches bs ++ rest) w (record c { active = false } ∷ cs)
                  refl
                ∙ run_branches bs rest w (record c { active = false }) cs k
          ]))

  -- The run over the lines of a group, in an active branch and in front of anything, has the meaning
  -- of the group, and leaves the conditionals around it as they were.
  pub run-flatten :
      (g : Group) (rest : List Event) (s : State)
      → is_active s ≡ true
      → run checks handler (flatten g ++ rest) s
        ≡ (meaning g s.world >>= λ w. run checks handler rest (record s { world = w }))
  run-flatten g rest s a = run_group g rest s.world s.cond_stack a

  -- In a dead branch the run over the lines of a group, in front of anything, changes nothing: no
  -- macro is defined, nothing is put out, no file included, no condition evaluated.
  pub run-flatten_inactive :
      (g : Group) (rest : List Event) (s : State)
      → is_active s ≡ false
      → run checks handler (flatten g ++ rest) s ≡ run checks handler rest s
  run-flatten_inactive g rest s i = skip_group g rest s.world s.cond_stack i
