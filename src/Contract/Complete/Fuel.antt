-- ===== src/Contract/Complete/Fuel.antt =====
-- The loop of `into_complete` of src/contract/complete.rs ends within its fuel: a declaration is asked
-- for at most twice, with the lower need and with the higher one.
use parc.Prelude.{
  ℕ, zero, suc, ◌+◌, ◌<◌, ◌≡◌, inl, inr, refl, sym, ap, subst, ◌∙◌, true, ◌&&◌, not, List, [], ◌∷◌,
  Option, none, some, arith, ◌==◌, ==_iff, if_both, Bool-cases,
}
use parc.Prelude.Lists.{length}
use parc.Prelude.Text.{Text}
use parc.Contract.Checked.{Checked}
use parc.Contract.Selection.{DeclarationId, Selection, member}
use parc.Contract.Declarations.{SourceDeclaration}
use parc.Contract.Package.{SourcePackageInput, declaration_in}
use parc.Contract.Compose.Closure.{enqueue_all}
use parc.Contract.Compose.Closure.Queue.{member-append}
use parc.Contract.Compose.Closure.Refers.{Refers, enqueue_all-Refers}
use parc.Contract.Complete.{
  CompleteSourcePackage, is_opaque_only, is_record, current, visit_found, visit_entry, next_round,
  visit_loop, all_references, root_ids, askable, completion_fuel, needed_roots, start, conclude,
  finish, into_complete,
}
use parc.Contract.Complete.Blockers.{sort_blockers, dedup}
use parc.Contract.Complete.Visit.{is_opaque}
use parc.Contract.Complete.Visit.{Need, NeedMap, need_of, Walk, CompletionBlocker}
use parc.Contract.Complete.Visit.Effect.{Wanted, Steps, Steps-weaken, nothing, reported}
use parc.Contract.Complete.Visit.Requires.{declaration-Effect}
use parc.Contract.Complete.Proved.{RootWants, roots-Effect, blank}
use parc.Contract.Complete.Slack.{slack, Steps-slack}
use parc.Contract.Complete.Visit.Refers.{Wants-Refers}

module _ (ds : List SourceDeclaration) (selected : Selection) where
  -- The visit of one entry asks for what its declaration refers to.
  abbrev Asks : DeclarationId → Wanted
  Asks id t m = (d : SourceDeclaration) × (declaration_in ds id ≡ some d) × Refers d t

  visit_found-Steps :
      (id : DeclarationId) (need now : Need) (o : Option SourceDeclaration) (v : Walk)
      → declaration_in ds id ≡ o
      → Steps (Asks id) v (visit_found selected id need now o v)
  visit_found-Steps id need now none v e = reported nothing
  visit_found-Steps id need now (some d) v e =
      if_both (Steps (Asks id) v)
        (is_opaque_only selected && (is_opaque need && not (is_record d.kind)))
        (λ _. reported nothing)
        (λ _.
          Steps-weaken (λ t m n. (d, e, Wants-Refers now d t m n))
            ((declaration-Effect d now).steps v))

  visit_entry-Steps :
      (id : DeclarationId) (need : Need) (v : Walk)
      → Steps (Asks id) v (visit_entry ds selected id need v)
  unfolding visit_entry
  visit_entry-Steps id need v =
      let now = current (need_of v.required id) need in
      if_both (Steps (Asks id) v) (is_opaque need && not (is_opaque now)) (λ _. nothing)
        (λ _. visit_found-Steps id need now (declaration_in ds id) v refl)

  module _ (us : List DeclarationId)
      (known : (id t : DeclarationId) (m : Need) → Asks id t m → member us t ≡ true) where
    next_round-ends :
        (go_on : Walk → Option Walk) (f : ℕ) (v : Walk) (q : List (DeclarationId × Need))
        → v.queue ≡ q
        → ((v' : Walk)
            → length v'.queue + slack us v'.required < f
            → (w : Walk) × (go_on v' ≡ some w))
        → length q + slack us v.required < suc f
        → (w : Walk) × (next_round go_on (λ id need u. visit_entry ds selected id need u) v q
            ≡ some w)
    next_round-ends go_on f v [] e again lt = (v, refl)
    next_round-ends go_on f v ((id, need) ∷ q) e again lt =
        let a = Steps-slack us (known id) (visit_entry-Steps id need (record v { queue = q })) in
        again (visit_entry ds selected id need (record v { queue = q })) (omega (arith, a))

    visit_loop-ends :
        (f : ℕ) (v : Walk)
        → length v.queue + slack us v.required < f
        → (w : Walk) × (visit_loop ds selected f v ≡ some w)
    unfolding visit_loop
    visit_loop-ends zero v lt = absurd (omega arith)
    visit_loop-ends (suc f) v lt =
        next_round-ends (visit_loop ds selected f) f v v.queue refl (λ v' l. visit_loop-ends f v' l)
          lt

all_references-Refers :
    (ds : List SourceDeclaration) (id t : DeclarationId) (d : SourceDeclaration)
    → declaration_in ds id ≡ some d
    → Refers d t
    → member (all_references ds) t ≡ true
unfolding all_references declaration_in
all_references-Refers [] id t d e h = cc
all_references-Refers (x ∷ ds) id t d e h = elim (Bool-cases (x.id == id)) [
  | inl same ↦
      let eq : x ≡ d = ground arith in
      let m = (enqueue_all-Refers x t).1 (subst (λ y. Refers y t) (sym eq) h) in
      member-append (enqueue_all x []) (all_references ds) t ∙ rw m refl
  | inr other ↦
      let m = all_references-Refers ds id t d (ground arith) h in
      ground (arith, member-append (enqueue_all x []) (all_references ds) t, m)
]

root_ids-RootWants :
    (r : NeedMap) (t : DeclarationId) (m : Need) → RootWants r t m → member (root_ids r) t ≡ true
unfolding root_ids member
root_ids-RootWants [] t m h = absurd h
root_ids-RootWants ((id, n) ∷ rest) t m (inl p) = (let e = (==_iff id t).1 p.0 in rw e refl)
root_ids-RootWants ((id, n) ∷ rest) t m (inr q) =
    (let e = root_ids-RootWants rest t m q in ground (arith, e))

slack-start : (us : List DeclarationId) → slack us [] ≡ length us + length us
unfolding slack need_of
slack-start [] = refl
slack-start (u ∷ us) = (let e = slack-start us in omega (arith, e))

module _ {Target : Type 0} (display : CompletionBlocker → Text) (source : SourcePackageInput Target)
    (selected : Selection) where
  abbrev all_askable : List DeclarationId
  all_askable = askable source.declarations selected

  known_ids :
      (id t : DeclarationId) (m : Need)
      → Asks source.declarations selected id t m
      → member all_askable t ≡ true
  unfolding askable
  known_ids id t m (d, e, h) =
      let m = all_references-Refers source.declarations id t d e h in
      ground (
        arith,
        member-append (root_ids (needed_roots source.declarations selected))
            (all_references source.declarations) t,
        m,
      )

  known_roots :
      (t : DeclarationId) (m : Need)
      → RootWants (needed_roots source.declarations selected) t m
      → member all_askable t ≡ true
  unfolding askable
  known_roots t m h =
      let e = root_ids-RootWants (needed_roots source.declarations selected) t m h in
      ground (
        arith,
        member-append (root_ids (needed_roots source.declarations selected))
            (all_references source.declarations) t,
        e,
      )

  loop_ends :
      (w : Walk) × (visit_loop source.declarations selected
          (completion_fuel source.declarations selected)
          (start display source selected)
        ≡ some w)
  unfolding completion_fuel
  loop_ends =
      let s =
        (roots-Effect (needed_roots source.declarations selected)).steps (blank source selected) in
      let a = Steps-slack all_askable known_roots s in
      visit_loop-ends source.declarations selected all_askable known_ids
        (completion_fuel source.declarations selected) (start display source selected)
        (omega (arith, a, slack-start all_askable))

  -- The fuel of `into_complete` is enough: it returns a complete package or blockers.
  pub into_complete-ends :
      (r : Checked (List CompletionBlocker) (CompleteSourcePackage Target)) × (into_complete display
          source selected
        ≡ some r)
  unfolding into_complete
  into_complete-ends =
      let (w, e) = loop_ends in
      (
        conclude display source selected w (dedup (sort_blockers display w.blockers)),
        ap (λ o. finish display source selected o) e,
      )
