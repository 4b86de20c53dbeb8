-- ===== src/Contract/Complete/Rounds.antt =====
-- A round of the loop of `into_complete` of src/contract/complete.rs: without blockers, it fulfils the
-- need that it took off the queue.
use parc.Prelude.{
  ◌≤◌, ◌≡◌, ◌≢◌, ◌⊎◌, inl, inr, refl, sym, ap, subst, ◌∙◌, ◌&&◌, not, List, [], ◌∷◌, ◌++◌, Option,
  none, some, arith, if◌then◌else◌, if_both,
}
use mathlib.Core.List.{Memᴰ}
use mathlib.Core.List.Memᴰ
use mathlib.Core.Option.{some-injective}
use parc.Contract.Selection.{DeclarationId, Selection}
use parc.Contract.Declarations.{SourceDeclaration}
use parc.Contract.Package.{declaration_in}
use parc.Contract.Complete.{is_opaque_only, is_record, current, visit_found, visit_entry, block}
use parc.Contract.Complete.Visit.{is_opaque}
use parc.Contract.Complete.Visit.{
  Need, opaque_sufficient, definition, need_of, Walk, CompletionBlocker, missing_declaration,
  opaque_root_is_not_record, validate_declaration_closure,
}
use parc.Contract.Complete.Visit.Effect.{rank, Reached, Steps, Steps-rank, Steps-weaken}
use parc.Contract.Complete.Visit.Requires.{DeclarationSupported, Wants, declaration-Effect}
use parc.Contract.Complete.Walks.{Queued, Steps-queue, Steps-Queued, Steps-new}

module _ (ds : List SourceDeclaration) (selected : Selection) where
  -- A declaration has what is needed of it, and so have those that it names been asked for.
  pub record Fulfilled (id : DeclarationId) (n : Need) (v : Walk) : Type 0 where
    pub found : SourceDeclaration
    pub declared : declaration_in ds id ≡ some found
    pub supported : DeclarationSupported n found
    pub asked : (t : DeclarationId) (m : Need) → Wants n found t m → Reached v t m

  Fulfilled-grows :
      (id : DeclarationId) (n : Need) (v w : Walk)
      → ((x : DeclarationId) → rank (need_of v.required x) ≤ rank (need_of w.required x))
      → Fulfilled id n v
      → Fulfilled id n w
  Fulfilled-grows id n v w g f = record {
    found = f.found;
    declared = f.declared;
    supported = f.supported;
    asked = λ t m h. let a = f.asked t m h in let b = g t in omega (arith, a, b);
  }

  -- What the loop keeps true.
  pub record Inv (v : Walk) : Type 0 where
    pub queued : Queued v
    pub done :
        (id : DeclarationId) (n : Need)
        → need_of v.required id ≡ some n
        → Memᴰ (id, n) v.queue ⊎ Fulfilled id n v

  append_nil_left : {A : Type 0} (xs ys : List A) → xs ++ ys ≡ [] → xs ≡ []
  append_nil_left [] ys e = refl
  append_nil_left (x ∷ xs) ys e = cc

  append_one : {A : Type 0} (xs : List A) (y : A) → xs ++ y ∷ [] ≢ []
  append_one [] y e = cc
  append_one (x ∷ xs) y e = cc

  -- A visit of a declaration keeps the blockers, and without any it fulfils the need.
  pub record Visited (id : DeclarationId) (now : Need) (v w : Walk) : Type 1 where
    pub earlier : w.blockers ≡ [] → v.blockers ≡ []
    pub steps :
        w.blockers ≡ []
        → Steps
            (λ t m. (d : SourceDeclaration) × (declaration_in ds id ≡ some d) × Wants now d t m)
            v
            w
    pub fulfilled : w.blockers ≡ [] → Fulfilled id now w

  blocked-Visited :
      (id : DeclarationId) (now : Need) (v : Walk) (b : CompletionBlocker)
      → Visited id now v (block b v)
  blocked-Visited id now v b = record {
    earlier = λ e. absurd (append_one v.blockers b e);
    steps = λ e. absurd (append_one v.blockers b e);
    fulfilled = λ e. absurd (append_one v.blockers b e);
  }

  append_nil_right : {A : Type 0} (xs ys : List A) → xs ++ ys ≡ [] → ys ≡ []
  append_nil_right [] ys e = e
  append_nil_right (x ∷ xs) ys e = cc

  validate-Visited :
      (id : DeclarationId) (now : Need) (d : SourceDeclaration) (v : Walk)
      → declaration_in ds id ≡ some d
      → Visited id now v (validate_declaration_closure d now v)
  validate-Visited id now d v e =
      let f = declaration-Effect d now in
      let (bs, p, k) = f.reports v in
      record {
        earlier = λ z. append_nil_left v.blockers bs (sym p ∙ z);
        steps = λ z. Steps-weaken (λ t m n. (d, e, n)) (f.steps v);
        fulfilled = λ z. record {
          found = d;
          declared = e;
          supported = k.0 (append_nil_right v.blockers bs (sym p ∙ z));
          asked = λ t m n. f.reaches v t m n;
        };
      }

  pub visit_found-Visited :
      (id : DeclarationId) (need now : Need) (o : Option SourceDeclaration) (v : Walk)
      → declaration_in ds id ≡ o
      → Visited id now v (visit_found selected id need now o v)
  visit_found-Visited id need now none v e = blocked-Visited id now v (missing_declaration id)
  visit_found-Visited id need now (some d) v e =
      if_both (Visited id now v)
        (is_opaque_only selected && (is_opaque need && not (is_record d.kind)))
        (λ _. blocked-Visited id now v (opaque_root_is_not_record id))
        (λ _. validate-Visited id now d v e)

  -- A round keeps the invariant, for what is left of the queue and what is new in it.
  Visited-Inv :
      (id : DeclarationId) (now : Need) (v w : Walk) (q : List (DeclarationId × Need))
      → v.queue ≡ (id, now) ∷ q
      → Visited id now (record v { queue = q }) w
      → w.blockers ≡ []
      → Inv v
      → Inv w
  Visited-Inv id now v w q e z b i =
      let s = z.steps b in
      record {
        queued = Steps-Queued s (λ x n m. i.queued x n (subst (Memᴰ (x, n)) (sym e) (Memᴰ.tail m)));
        done = λ x n h. elim (Steps-new s x n h) [
          | inr m ↦ inl m
          | inl old ↦ elim (i.done x n old) [
            | inr f ↦ inr (Fulfilled-grows x n v w (Steps-rank s) f)
            | inl m ↦ elim (Memᴰ.cases_cons (subst (Memᴰ (x, n)) e m)) [
              | inl p ↦ inr (subst (λ y. Fulfilled y.0 y.1 w) (sym p) (z.fulfilled b))
              | inr t ↦ inl (Steps-queue s (x, n) t)
            ]
          ]
        ];
      }

  -- The queue held an older need of the declaration too.
  skipped-Inv :
      (id : DeclarationId) (need now : Need) (v : Walk) (q : List (DeclarationId × Need))
      → v.queue ≡ (id, need) ∷ q
      → need_of v.required id ≡ some now
      → need ≢ now
      → Inv v
      → Inv (record v { queue = q })
  skipped-Inv id need now v q e h ne i = record {
    queued = λ x n m. i.queued x n (subst (Memᴰ (x, n)) (sym e) (Memᴰ.tail m));
    done = λ x n old. elim (i.done x n old) [
      | inr f ↦ inr (Fulfilled-grows x n v (record v { queue = q }) (λ y. omega arith) f)
      | inl m ↦ elim (Memᴰ.cases_cons (subst (Memᴰ (x, n)) e m)) [
        | inl p ↦
            absurd (ne (some-injective need now (cc (ap (λ y. y.0) p, ap (λ y. y.1) p, old, h))))
        | inr t ↦ inl t
      ]
    ];
  }

  -- Where an entry of the queue stands to the need that is on record.
  entry_cases :
      (need : Need) (o : Option Need)
      → rank (some need) ≤ rank o
      → (now : Need) × (o ≡ some now)
        × ((need ≡ now) ⊎ ((need ≡ opaque_sufficient) × (now ≡ definition)))
  entry_cases opaque_sufficient none le = absurd (omega arith)
  entry_cases definition none le = absurd (omega arith)
  entry_cases opaque_sufficient (some opaque_sufficient) le = (opaque_sufficient, refl, inl refl)
  entry_cases opaque_sufficient (some definition) le = (definition, refl, inr (refl, refl))
  entry_cases definition (some opaque_sufficient) le = absurd (omega arith)
  entry_cases definition (some definition) le = (definition, refl, inl refl)

  -- What a round leaves, if that has no blockers.
  abbrev pub Kept : Walk → Walk → Type 0
  Kept v w =
      w.blockers ≡ []
      → (v.blockers ≡ [])
        × Inv w
        × ((x : DeclarationId) → rank (need_of v.required x) ≤ rank (need_of w.required x))

  abbrev round : DeclarationId → Need → Walk → Need → Walk
  round id need v now =
      if is_opaque need && not (is_opaque now)
      then v
      else visit_found selected id need now (declaration_in ds id) v

  visited-Kept :
      (id : DeclarationId) (need now : Need) (v : Walk) (q : List (DeclarationId × Need))
      → v.queue ≡ (id, now) ∷ q
      → Inv v
      → Kept v (visit_found selected id need now (declaration_in ds id) (record v { queue = q }))
  visited-Kept id need now v q e i b =
      let z =
        visit_found-Visited id need now (declaration_in ds id) (record v { queue = q }) refl in
      (
        z.earlier b,
        Visited-Inv id now v
            (visit_found selected id need now (declaration_in ds id) (record v { queue = q })) q e z
            b i,
        Steps-rank (z.steps b),
      )

  round-Kept :
      (id : DeclarationId) (need now : Need) (v : Walk) (q : List (DeclarationId × Need))
      → v.queue ≡ (id, need) ∷ q
      → need_of v.required id ≡ some now
      → (need ≡ now) ⊎ ((need ≡ opaque_sufficient) × (now ≡ definition))
      → Inv v
      → Kept v (round id need (record v { queue = q }) now)
  round-Kept id opaque_sufficient opaque_sufficient v q e h c i =
      visited-Kept id opaque_sufficient opaque_sufficient v q e i
  round-Kept id opaque_sufficient definition v q e h c i =
      λ b. (b, skipped-Inv id opaque_sufficient definition v q e h (λ z. cc) i, λ x. omega arith)
  round-Kept id definition opaque_sufficient v q e h (inl p) i = cc
  round-Kept id definition opaque_sufficient v q e h (inr p) i = cc
  round-Kept id definition definition v q e h c i = visited-Kept id definition definition v q e i

  pub visit_entry-Kept :
      (id : DeclarationId) (need : Need) (v : Walk) (q : List (DeclarationId × Need))
      → v.queue ≡ (id, need) ∷ q
      → Inv v
      → Kept v (visit_entry ds selected id need (record v { queue = q }))
  unfolding visit_entry
  visit_entry-Kept id need v q e i =
      let (now, h, c) =
        entry_cases need (need_of v.required id)
          (i.queued id need (subst (Memᴰ (id, need)) (sym e) (Memᴰ.head refl))) in
      subst (λ o. Kept v (round id need (record v { queue = q }) (current o need))) (sym h)
        (round-Kept id need now v q e h c i)
