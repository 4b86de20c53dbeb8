-- ===== src/Contract/Complete/Proved.antt =====
-- What a complete package of src/contract/complete.rs is a proof of.
use parc.Prelude.{
  ◌≤◌, ◌≡◌, ◌≢◌, inl, inr, refl, sym, ap, ◌∙◌, List, [], ◌∷◌, ◌++◌, Option, none, some, arith,
}
use Prim.Native.Nat.{Ordering}
use mathlib.Core.List.{Memᴰ}
use mathlib.Core.List.Memᴰ
use mathlib.Core.Option.{some-injective}
use parc.Prelude.Text.{Text}
use parc.Contract.Checked.{ok, ok-injective}
use parc.Contract.Selection.{DeclarationId, Selection}
use parc.Contract.Declarations.{SourceDeclaration}
use parc.Contract.Package.{SourcePackageInput, declaration_in}
use parc.Contract.Compose.Reason.{compare_text}
use parc.Contract.Complete.{
  CompleteSourcePackage, package_blockers, needed_roots, enqueue_roots, visit_loop, completion_fuel,
  closure_entries, conclude, finish, start, into_complete,
}
use parc.Contract.Complete.Blockers.{insert_blocker, sort_blockers, dedup}
use parc.Contract.Complete.Visit.{Need, NeedMap, need_of, Walk, CompletionBlocker}
use parc.Contract.Complete.Visit.Effect.{
  rank, Wanted, no_wants, wants, both, Effect, Effect-id, Effect-then, Effect-enqueue,
}
use parc.Contract.Complete.Visit.Requires.{DeclarationSupported, Wants}
use parc.Contract.Complete.Walks.{Steps-Queued, Steps-new}
use parc.Contract.Complete.Rounds.{Inv}
use parc.Contract.Complete.Closure.{visit_loop-Ended}

-- The needs of the roots.
abbrev pub RootWants : NeedMap → Wanted
RootWants [] = no_wants
RootWants ((id, n) ∷ rest) = both (wants id n) (RootWants rest)

abbrev AllUnit : NeedMap → Type 0
AllUnit [] = Unit
AllUnit (_ ∷ rest) = Unit × AllUnit rest

all_unit : (r : NeedMap) → AllUnit r
all_unit [] = tt
all_unit (_ ∷ rest) = (tt, all_unit rest)

pub roots-Effect : (r : NeedMap) → Effect (enqueue_roots r) (AllUnit r) (RootWants r)
unfolding enqueue_roots
roots-Effect [] = Effect-id
roots-Effect ((id, n) ∷ rest) = Effect-then (Effect-enqueue id n) (roots-Effect rest)

RootWants-Mem : (r : NeedMap) (id : DeclarationId) (n : Need) → Memᴰ (id, n) r → RootWants r id n
RootWants-Mem [] id n m = absurd (Memᴰ.not-nil m)
RootWants-Mem ((x, k) ∷ rest) id n m = elim (Memᴰ.cases_cons m) [
  | inl e ↦ inl (ap (λ p. p.0) (sym e), ap (λ p. p.1) (sym e))
  | inr t ↦ inr (RootWants-Mem rest id n t)
]

module _ {Target : Type 0} (source : SourcePackageInput Target) (selected : Selection) where
  -- The package has no blockers of its own, the roots have what the selection needs of them, and every
  -- member of the closure is declared, has all that is needed of it supported at any depth, and names
  -- only members that have what it needs of them.
  pub record Proved (c : CompleteSourcePackage Target) : Type 0 where
    pub unblocked : package_blockers source ≡ []
    pub needs : NeedMap
    pub entries : c.declaration_closure ≡ closure_entries needs
    pub roots :
        (id : DeclarationId) (n : Need)
        → Memᴰ (id, n) (needed_roots source.declarations selected)
        → rank (some n) ≤ rank (need_of needs id)
    pub members :
        (id : DeclarationId) (n : Need)
        → need_of needs id ≡ some n
        → (d : SourceDeclaration) × (declaration_in source.declarations id ≡ some d)
          × DeclarationSupported n d
          × ((t : DeclarationId) (m : Need)
              → Wants n d t m
              → rank (some m) ≤ rank (need_of needs t))

  abbrev pub blank : Walk
  blank = record { required = []; queue = []; blockers = package_blockers source }

  start-Inv :
      Inv source.declarations selected
        (enqueue_roots (needed_roots source.declarations selected) blank)
  unfolding need_of
  start-Inv =
      let s = (roots-Effect (needed_roots source.declarations selected)).steps blank in
      record {
        queued = Steps-Queued s (λ x n m. absurd (Memᴰ.not-nil m));
        done = λ x n h. elim (Steps-new s x n h) [ inl e ↦ cc | inr m ↦ inl m ];
      }

  module _ (display : CompletionBlocker → Text) where
    insert_blocker-ne :
        (b : CompletionBlocker) (cs : List CompletionBlocker) → insert_blocker display b cs ≢ []
    unfolding insert_blocker
    insert_blocker-ne b [] e = cc
    insert_blocker-ne b (c ∷ cs) e = by_order (compare_text (display b) (display c)) e
      where
        by_order :
            (o : Ordering)
            → (elim o [ Ordering.gt ↦ c ∷ insert_blocker display b cs | _ ↦ b ∷ c ∷ cs ]) ≢ []
        by_order Ordering.lt e = cc
        by_order Ordering.eq e = cc
        by_order Ordering.gt e = cc

    dedup_nil : (cs : List CompletionBlocker) → dedup cs ≡ [] → cs ≡ []
    unfolding dedup
    dedup_nil [] h = refl
    dedup_nil (c ∷ cs) h = cc

    -- Blockers stay, in some order.
    none_left : (bs : List CompletionBlocker) → dedup (sort_blockers display bs) ≡ [] → bs ≡ []
    unfolding sort_blockers
    none_left [] e = refl
    none_left (b ∷ bs) e = absurd (
        insert_blocker-ne b (sort_blockers display bs)
          (dedup_nil (insert_blocker display b (sort_blockers display bs)) e))

    conclude-ok :
        (v : Walk) (bs : List CompletionBlocker) (c : CompleteSourcePackage Target)
        → conclude display source selected v bs ≡ ok c
        → (bs ≡ []) × (c.declaration_closure ≡ closure_entries v.required)
    conclude-ok v [] c e = (refl, ap (λ x. x.declaration_closure) (sym (ok-injective e)))
    conclude-ok v (b ∷ bs) c e = cc

    ended-Proved :
        (v : Walk) (c : CompleteSourcePackage Target)
        → visit_loop source.declarations selected
            (completion_fuel source.declarations selected)
            (start display source selected)
          ≡ some v
        → conclude display source selected v (dedup (sort_blockers display v.blockers)) ≡ ok c
        → Proved c
    ended-Proved v c e h =
        let (nil, entries) = conclude-ok v (dedup (sort_blockers display v.blockers)) c h in
        let rs = needed_roots source.declarations selected in
        let f = roots-Effect rs in
        let (bs, p, k) = f.reports blank in
        let (b, members, grows) =
          visit_loop-Ended source.declarations selected
            (completion_fuel source.declarations selected) (start display source selected) v e
            start-Inv (none_left v.blockers nil) in
        record {
          unblocked = append_nil package_bs bs (sym p ∙ b);
          needs = v.required;
          entries = entries;
          roots = λ id n m.
              (let a = f.reaches blank id n (RootWants-Mem rs id n m) in
                let g = grows id in omega (arith, a, g));
          members =
              λ id n q. (let z = members id n q in (z.found, z.declared, z.supported, z.asked));
        }
      where
        package_bs : List CompletionBlocker
        package_bs = package_blockers source

        append_nil : (xs ys : List CompletionBlocker) → xs ++ ys ≡ [] → xs ≡ []
        append_nil [] ys e = refl
        append_nil (x ∷ xs) ys e = cc

    finish-Proved :
        (o : Option Walk) (c : CompleteSourcePackage Target)
        → visit_loop source.declarations selected
            (completion_fuel source.declarations selected)
            (start display source selected)
          ≡ o
        → finish display source selected o ≡ some (ok c)
        → Proved c
    finish-Proved none c e h = cc
    finish-Proved (some v) c e h = ended-Proved v c e (
        some-injective
          (conclude display source selected v (dedup (sort_blockers display v.blockers))) (ok c) h)

-- If `into_complete` succeeds, the complete package is a proof of what `Proved` says.
pub into_complete-Proved :
    {Target : Type 0} (display : CompletionBlocker → Text) (source : SourcePackageInput Target)
    (selected : Selection) (c : CompleteSourcePackage Target)
    → into_complete display source selected ≡ some (ok c)
    → Proved source selected c
unfolding into_complete
into_complete-Proved display source selected c h =
    finish-Proved source selected display
      (visit_loop source.declarations selected (completion_fuel source.declarations selected)
        (start display source selected))
      c refl h
