-- ===== src/Contract/Compose/Closure/Reach.antt =====
-- `declaration_closure` of src/contract/compose.rs as reachability: the loop ends within its fuel, at
-- what the roots reach or at an identifier that they reach and no declaration has.
use parc.Prelude.{
  ℕ, zero, suc, ◌+◌, ◌<◌, ◌≡◌, ◌⊎◌, ◌↔◌, inl, inr, refl, sym, ap, subst, ◌∙◌, Bool, true, false,
  ◌||◌, List, [], ◌∷◌, ◌++◌, Option, none, some, arith, ◌==◌, ==_iff, Bool-cases,
}
use mathlib.Core.Option.{some-injective}
use parc.Prelude.Lists.{length, length-append}
use parc.Contract.Checked.{ok, err}
use parc.Contract.Selection.{DeclarationId, member}
use parc.Contract.Declarations.{SourceDeclaration}
use parc.Contract.Package.{declaration_in}
use parc.Contract.Compose.Closure.{
  Queue, Closed, enqueue_all, closure_loop, retain_one, reference_count, declaration_closure,
}
use parc.Contract.Compose.Closure.Queue.{member-append}
use parc.Contract.Compose.Closure.Waiting.{
  references, enqueue_all-eq, references-Refers, waiting, waiting-start, waiting-declared,
}
use parc.Contract.Compose.Closure.Refers.{Refers}

-- The roots, and what the declaration of a reached identifier refers to.
pub data Reach (ds : List SourceDeclaration) (roots : List DeclarationId)
    : DeclarationId → Type 0 where
  root : {id : DeclarationId} → member roots id ≡ true → Reach ds roots id
  step :
      {id next : DeclarationId} {d : SourceDeclaration}
      → Reach ds roots id
      → declaration_in ds id ≡ some d
      → Refers d next
      → Reach ds roots next

or_true : (a b : Bool) → (a || b) ≡ true → (a ≡ true) ⊎ (b ≡ true)
or_true true b h = inl refl
or_true false b h = inr h

-- A member of a list is its head, or a member of the rest.
at_head :
    (P : DeclarationId → Type 0) (ids : List DeclarationId) (id x : DeclarationId)
    → member (id ∷ ids) x ≡ true
    → P id
    → (member ids x ≡ true → P x)
    → P x
unfolding member
at_head P ids id x m p q = elim (Bool-cases (id == x)) [
  | inl e ↦ subst P ((==_iff id x).0 e) p
  | inr e ↦ q (ground arith)
]

module _ (ds : List SourceDeclaration) (roots : List DeclarationId) where
  -- What the loop keeps true of the set and the queue.
  record Inv (retained : List DeclarationId) (queue : Queue) : Type 0 where
    start :
        (id : DeclarationId)
        → member roots id ≡ true
        → (member retained id ≡ true) ⊎ (member queue id ≡ true)
    sound : (id : DeclarationId) → member retained id ≡ true → Reach ds roots id
    queued : (id : DeclarationId) → member queue id ≡ true → Reach ds roots id
    declared :
        (id : DeclarationId)
        → member retained id ≡ true
        → (d : SourceDeclaration) × (declaration_in ds id ≡ some d)
    closed :
        (id next : DeclarationId) (d : SourceDeclaration)
        → member retained id ≡ true
        → declaration_in ds id ≡ some d
        → Refers d next
        → (member retained next ≡ true) ⊎ (member queue next ≡ true)

  Inv-start : Inv [] roots
  unfolding member
  Inv-start = record {
    start = λ id h. inr h;
    sound = λ id h. cc;
    queued = λ id h. root h;
    declared = λ id h. cc;
    closed = λ id next d h. cc;
  }

  Inv-known :
      (retained : List DeclarationId) (id : DeclarationId) (queue : Queue)
      → member retained id ≡ true
      → Inv retained (id ∷ queue)
      → Inv retained queue
  unfolding member
  Inv-known retained id queue k h = record {
    start = λ x m. ground (arith, start x m);
    sound = sound;
    queued = λ x m. queued x (ground arith);
    declared = declared;
    closed = λ x y d m e r. ground (arith, closed x y d m e r);
  }
    where
      open h use {start, sound, queued, declared, closed}

  Inv-fresh :
      (retained : List DeclarationId) (id : DeclarationId) (queue : Queue) (d : SourceDeclaration)
      → declaration_in ds id ≡ some d
      → Inv retained (id ∷ queue)
      → Inv (id ∷ retained) (queue ++ references d)
  unfolding member
  Inv-fresh retained id queue d e h = record {
    start = λ x m. ground (arith, start x m, member-append queue (references d) x);
    sound = λ x m. at_head (Reach ds roots) retained id x m here (sound x);
    queued = λ x m.
        elim (or_true (member queue x) (member (references d) x)
          (sym (member-append queue (references d) x) ∙ m)) [
            | inl q ↦ queued x (ground arith)
            | inr r ↦ step here e ((references-Refers d x).0 r)
          ];
    declared = λ x m.
        at_head (λ y. (c : SourceDeclaration) × (declaration_in ds y ≡ some c)) retained id x m
          (d, e) (declared x);
    closed = λ x. λ y c m r n.
        at_head
          (λ z.
            declaration_in ds z ≡ some c
            → (member (id ∷ retained) y ≡ true) ⊎ (member (queue ++ references d) y ≡ true))
          retained id x m
          (λ r'. inr (
            ground (
              arith,
              member-append queue (references d) y,
              (references-Refers d y).1
                  (subst (λ z. Refers z y) (some-injective c d (sym r' ∙ e)) n),
            )))
          (λ m' r'. ground (arith, closed x y c m' r' n, member-append queue (references d) y)) r;
  }
    where
      open h use {start, sound, queued, declared, closed}

      here : Reach ds roots id
      here = queued id (unfold member in ground arith)

  -- What the loop may end with.
  Final : Closed → Type 0
  Final (ok retained) = Inv retained []
  Final (err id) = Reach ds roots id × (declaration_in ds id ≡ none)

  abbrev Outcome : ℕ → List DeclarationId → Queue → Type 0
  Outcome f retained queue = (r : Closed) × (closure_loop ds f retained queue ≡ some r) × Final r

  loop_lem :
      (f : ℕ) (retained : List DeclarationId) (queue : Queue)
      → length queue + waiting ds retained < f
      → Inv retained queue
      → Outcome f retained queue
  unfolding closure_loop Final
  loop_lem zero retained queue lt h = absurd (omega arith)
  loop_lem (suc f) retained [] lt h = (ok retained, refl, h)
  loop_lem (suc f) retained (id ∷ queue) lt h = elim (Bool-cases (member retained id)) [
    | inl known ↦
        rw known (loop_lem f retained queue (omega arith) (Inv-known retained id queue known h))
    | inr fresh ↦ rw fresh (by_declaration (loop_lem f) (declaration_in ds id) refl fresh)
  ]
    where
      by_declaration :
          ((set : List DeclarationId) (q : Queue)
            → length q + waiting ds set < f
            → Inv set q
            → Outcome f set q)
          → (o : Option SourceDeclaration) → declaration_in ds id ≡ o
          → member retained id ≡ false
          → (r : Closed) × (retain_one (λ r q. closure_loop ds f r q) retained id queue o ≡ some r)
            × Final r
      by_declaration go none e fresh =
          (err id, refl, (h.queued id (unfold member in ground arith), e))
      by_declaration go (some d) e fresh =
          let bound : length (enqueue_all d queue) + waiting ds (id ∷ retained) < f = ground (
            arith,
            waiting-declared ds retained id d fresh e,
            ap length (enqueue_all-eq d queue),
            length-append queue (references d),
          ) in
          go (id ∷ retained) (enqueue_all d queue) bound (
            subst (Inv (id ∷ retained)) (sym (enqueue_all-eq d queue))
              (Inv-fresh retained id queue d e h))

  closure_outcome : (r : Closed) × (declaration_closure ds roots ≡ some r) × Final r
  unfolding declaration_closure
  closure_outcome =
      loop_lem (suc (length roots + reference_count ds)) [] roots (omega (arith, waiting-start ds))
        Inv-start

  declaration_closure-Final : (r : Closed) → declaration_closure ds roots ≡ some r → Final r
  declaration_closure-Final r h =
      let (r', e, fin) = closure_outcome in subst Final (some-injective r' r (sym e ∙ h)) fin

  complete :
      (out : List DeclarationId)
      → Inv out []
      → {id : DeclarationId} → Reach ds roots id
      → member out id ≡ true
  unfolding member
  complete out inv (root {id} m) = ground (arith, inv.start id m)
  complete out inv (step {id} {next} {d} p e r) =
      ground (arith, inv.closed id next d (complete out inv p) e r)

-- The fuel is enough: the closure ends, with a set or with an identifier that is missing.
pub declaration_closure-ends :
    (ds : List SourceDeclaration) (roots : List DeclarationId)
    → (r : Closed) × (declaration_closure ds roots ≡ some r)
declaration_closure-ends ds roots = let (r, e, _) = closure_outcome ds roots in (r, e)

-- If the closure returns a set, that holds exactly the identifiers that the roots reach, and each of them is declared.
pub declaration_closure-Reach :
    (ds : List SourceDeclaration) (roots out : List DeclarationId)
    → declaration_closure ds roots ≡ some (ok out)
    → (id : DeclarationId)
    → ((member out id ≡ true) ↔ Reach ds roots id)
      × (member out id ≡ true → (d : SourceDeclaration) × (declaration_in ds id ≡ some d))
unfolding Final
declaration_closure-Reach ds roots out h id =
    let inv = declaration_closure-Final ds roots (ok out) h in
    ((inv.sound id, complete ds roots out inv), inv.declared id)

-- If the closure reports an identifier, the roots reach it and no declaration has it.
pub declaration_closure-missing :
    (ds : List SourceDeclaration) (roots : List DeclarationId) (id : DeclarationId)
    → declaration_closure ds roots ≡ some (err id)
    → Reach ds roots id × (declaration_in ds id ≡ none)
unfolding Final
declaration_closure-missing ds roots id h = declaration_closure-Final ds roots (err id) h
