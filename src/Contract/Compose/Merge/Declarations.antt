-- ===== src/Contract/Compose/Merge/Declarations.antt =====
-- The merge of declaration tables of src/contract/compose.rs.
use parc.Prelude.{
  ℕ, ◌≡◌, ◌≢◌, ◌⊎◌, inl, inr, ◌↔◌, refl, sym, ap, subst, ◌∙◌, List, Option, none, some, Bool-cases,
}
use mathlib.Core.Option.{some-injective}
use parc.Prelude.Lists.{All}
use parc.Contract.Checked.{ok, err, ok-injective, err-injective, ok_inverts, err_inverts}
use parc.Contract.Selection.{DeclarationId}
use parc.Contract.Declarations.{SourceDeclaration, DeclarationOccurrence}
use parc.Contract.Compose.Equal.{DeclarationOccurrence-discrete}
use parc.Contract.Compose.Union.{find}
use parc.Contract.Compose.Union.Tables.{Increasing, find-key}
use parc.Contract.Compose.Union.Pointwise.{join, union-Merged, union-err}
use parc.Contract.Compose.Union.Exact.{union-exact}
use parc.Contract.Compose.Union.Commute.{union_comm, All-trivial, find-Good}
use parc.Contract.Compose.Merge.{
  ComposeError, conflicting_declaration, combine_occurrence, merge_occurrences, same_declaration,
  combine_declaration, merge_declarations,
}
use parc.Contract.Compose.Merge.Same.{
  Same, same_declaration_iff, Same-sym, with_occurrences, with_occurrences-Same,
}
use parc.Contract.Compose.Merge.Files.{require_same-ok, require_same-err, require_same_comm}

abbrev pub Occurrences : List DeclarationOccurrence → Type 0
Occurrences os = Increasing (λ o. o.id) os

-- The occurrences of a declaration are a table too.
abbrev pub IsTable : List SourceDeclaration → Type 0
IsTable ds = Increasing (λ d. d.id) ds × All (λ d. Occurrences d.occurrences) ds

abbrev pub Occurs : Option SourceDeclaration → ℕ → DeclarationOccurrence → Type 0
Occurs x j o = (d : SourceDeclaration) × (x ≡ some d) × (find (λ o. o.id) j d.occurrences ≡ some o)

Occurs-some :
    (x : SourceDeclaration) (j : ℕ) (o : DeclarationOccurrence)
    → Occurs (some x) j o ↔ (find (λ o. o.id) j x.occurrences ≡ some o)
Occurs-some x j o = (
  λ (d, p, q).
      subst (λ z. find (λ o. o.id) j z.occurrences ≡ some o) (sym (some-injective x d p)) q,
  λ f. (x, refl, f),
)

-- Two declarations of one identifier that do not merge: they are not the same, or have different occurrences of one identifier.
abbrev pub Clash : SourceDeclaration → SourceDeclaration → Type 0
Clash x y =
    (¬ Same x y)
    ⊎ ((j : ℕ) × (o p : DeclarationOccurrence) × (find (λ o. o.id) j x.occurrences ≡ some o)
        × (find (λ o. o.id) j y.occurrences ≡ some p)
        × (o ≢ p))

module _ {B : Type 0} where
  combine_occurrence-ok :
      (id : DeclarationId) (x y c : DeclarationOccurrence)
      → combine_occurrence {B = B} id x y ≡ ok c
      → (x ≡ y) × (x ≡ c)
  combine_occurrence-ok id x y c h =
      require_same-ok DeclarationOccurrence-discrete (conflicting_declaration id) x y c h

  combine_occurrence-keeps :
      (id : DeclarationId) (x y c : DeclarationOccurrence)
      → combine_occurrence {B = B} id x y ≡ ok c
      → c.id ≡ x.id
  combine_occurrence-keeps id x y c h = ap (λ o. o.id) (sym (combine_occurrence-ok id x y c h).1)

  merge_occurrences_comm :
      (id : DeclarationId) (l r m : List DeclarationOccurrence)
      → Occurrences l
      → Occurrences r
      → merge_occurrences {B = B} id l r ≡ ok m
      → merge_occurrences {B = B} id r l ≡ ok m
  unfolding merge_occurrences
  merge_occurrences_comm id l r m il ir h =
      union_comm (λ o. o.id) (combine_occurrence id) (combine_occurrence-keeps id) (λ _. Unit)
        (λ x y c _ _ _ p.
          require_same_comm DeclarationOccurrence-discrete (conflicting_declaration id) x y c p)
        l r m il ir (All-trivial l) (All-trivial r) h

  -- A combination that succeeds.
  combine_declaration-ok :
      (x y c : SourceDeclaration)
      → combine_declaration {B = B} x y ≡ ok c
      → Same x y
        × (os : List DeclarationOccurrence) × (merge_occurrences {B = B} y.id x.occurrences
              y.occurrences
            ≡ ok os)
        × (with_occurrences x os ≡ c)
  unfolding combine_declaration
  combine_declaration-ok x y c h = elim (Bool-cases (same_declaration x y)) [
    | inl s ↦
        let (os, p, q) =
          ok_inverts (merge_occurrences {B = B} y.id x.occurrences y.occurrences)
            (λ os. ok (with_occurrences x os)) (rw s at h) in
        ((same_declaration_iff x y).0 s, os, p, ok-injective q)
    | inr s ↦ cc (rw s at h)
  ]

  combine_declaration-keeps :
      (x y c : SourceDeclaration) → combine_declaration {B = B} x y ≡ ok c → c.id ≡ x.id
  combine_declaration-keeps x y c h =
      let (_, os, _, e) = combine_declaration-ok x y c h in ap (λ d. d.id) (sym e)

  combine_declaration_comm :
      (x y c : SourceDeclaration)
      → Occurrences x.occurrences
      → Occurrences y.occurrences
      → x.id ≡ y.id
      → combine_declaration {B = B} x y ≡ ok c
      → combine_declaration {B = B} y x ≡ ok c
  unfolding combine_declaration
  combine_declaration_comm x y c ox oy p h =
      let (e, os, q, w) = combine_declaration-ok x y c h in
      let back : merge_occurrences {B = B} x.id y.occurrences x.occurrences ≡ ok os =
        merge_occurrences_comm x.id x.occurrences y.occurrences os ox oy (
          subst (λ j. merge_occurrences {B = B} j x.occurrences y.occurrences ≡ ok os) (sym p) q) in
      rw ((same_declaration_iff y x).1 (Same-sym x y e), back)
        (ap ok (with_occurrences-Same y x os (sym p) (Same-sym x y e) ∙ w))

  -- The order of two declaration tables does not matter to their merge.
  pub merge_declarations_comm :
      (l r m : List SourceDeclaration)
      → IsTable l
      → IsTable r
      → merge_declarations {B = B} l r ≡ ok m
      → merge_declarations {B = B} r l ≡ ok m
  unfolding merge_declarations
  merge_declarations_comm l r m tl tr h =
      union_comm (λ d. d.id) combine_declaration combine_declaration-keeps
        (λ d. Occurrences d.occurrences) (λ x y c ox oy p. combine_declaration_comm x y c ox oy p) l
        r m tl.0 tr.0 tl.1 tr.1 h

  combine_declaration-Occurs :
      (x y c : SourceDeclaration) (j : ℕ) (o : DeclarationOccurrence)
      → Occurrences x.occurrences
      → Occurrences y.occurrences
      → combine_declaration {B = B} x y ≡ ok c
      → (find (λ o. o.id) j c.occurrences ≡ some o) ↔ (
          (find (λ o. o.id) j x.occurrences ≡ some o) ⊎ (find (λ o. o.id) j y.occurrences ≡ some o))
  unfolding merge_occurrences
  combine_declaration-Occurs x y c j o ox oy h =
      let (e, os, q, w) = combine_declaration-ok x y c h in
      let (_, u) =
        union-exact (λ o. o.id) (combine_occurrence y.id) (combine_occurrence-ok y.id) x.occurrences
          y.occurrences os q ox oy in
      subst
        (λ d. (find (λ o. o.id) j d.occurrences ≡ some o) ↔ (
          (find (λ o. o.id) j x.occurrences ≡ some o)
          ⊎ (find (λ o. o.id) j y.occurrences ≡ some o)))
        w (u j o)

  join-Occurs :
      (l r m : Option SourceDeclaration) (j : ℕ) (o : DeclarationOccurrence)
      → ((x : SourceDeclaration) → l ≡ some x → Occurrences x.occurrences)
      → ((y : SourceDeclaration) → r ≡ some y → Occurrences y.occurrences)
      → join (λ d. d.id) (combine_declaration {B = B}) l r ≡ ok m
      → Occurs m j o ↔ (Occurs l j o ⊎ Occurs r j o)
  join-Occurs none r m j o gl gr h =
      let e = ok-injective h in
      (
        λ (d, p, q). inr (d, e ∙ p, q),
        λ c. elim c [ inl (d, p, q) ↦ cc | inr (d, p, q) ↦ (d, sym e ∙ p, q) ],
      )
  join-Occurs (some x) none m j o gl gr h =
      let e = ok-injective h in
      (
        λ (d, p, q). inl (d, e ∙ p, q),
        λ c. elim c [ inl (d, p, q) ↦ (d, sym e ∙ p, q) | inr (d, p, q) ↦ cc ],
      )
  join-Occurs (some x) (some y) m j o gl gr h =
      let (c, p, q) = ok_inverts (combine_declaration {B = B} x y) (λ c. ok (some c)) h in
      let u = combine_declaration-Occurs x y c j o (gl x refl) (gr y refl) p in
      let a = Occurs-some x j o in
      let b = Occurs-some y j o in
      let d = Occurs-some c j o in
      subst (λ z. Occurs z j o ↔ (Occurs (some x) j o ⊎ Occurs (some y) j o)) (ok-injective q)
        (
          λ t. elim (u.0 (d.0 t)) [ inl f ↦ inl (a.1 f) | inr f ↦ inr (b.1 f) ],
          λ t. d.1 (u.1 (elim t [ inl f ↦ inl (a.0 f) | inr f ↦ inr (b.0 f) ])),
        )

  -- The merge of two declaration tables has exactly their occurrences, each under its declaration.
  pub merge_declarations-Occurs :
      (l r m : List SourceDeclaration)
      → IsTable l
      → IsTable r
      → merge_declarations {B = B} l r ≡ ok m
      → (k : DeclarationId) (j : ℕ) (o : DeclarationOccurrence)
      → Occurs (find (λ d. d.id) k m) j o
        ↔ (Occurs (find (λ d. d.id) k l) j o ⊎ Occurs (find (λ d. d.id) k r) j o)
  unfolding merge_declarations
  merge_declarations-Occurs l r m tl tr h k j o =
      let g =
        union-Merged (λ d. d.id) combine_declaration combine_declaration-keeps l r m h tl.0 tr.0 in
      join-Occurs (find (λ d. d.id) k l) (find (λ d. d.id) k r) (find (λ d. d.id) k m) j o
        (λ x. find-Good (λ d. d.id) (λ d. Occurrences d.occurrences) k l x tl.1)
        (λ x. find-Good (λ d. d.id) (λ d. Occurrences d.occurrences) k r x tr.1) (g.held k)

  combine_declaration-Clash :
      (x y : SourceDeclaration) (e : ComposeError B)
      → Occurrences x.occurrences
      → Occurrences y.occurrences
      → combine_declaration {B = B} x y ≡ err e
      → Clash x y × (e ≡ conflicting_declaration y.id)
  unfolding combine_declaration merge_occurrences
  combine_declaration-Clash x y e ox oy h = elim (Bool-cases (same_declaration x y)) [
    | inr s ↦ (inl (λ t. cc ((same_declaration_iff x y).1 t)), err-injective (sym (rw s at h)))
    | inl s ↦
        elim (err_inverts (merge_occurrences {B = B} y.id x.occurrences y.occurrences)
          (λ os. ok (with_occurrences x os)) (rw s at h)) [
            | inl p ↦
                let (j, o, o', f, g, c) =
                  union-err (λ o. o.id) (combine_occurrence y.id) (combine_occurrence-keeps y.id)
                    x.occurrences y.occurrences e p ox oy in
                let (n, w) =
                  require_same-err DeclarationOccurrence-discrete (conflicting_declaration y.id) o
                    o' e c in
                (inr (j, o, o', f, g, n), w)
            | inr (os, p, q) ↦ cc
          ]
  ]

  -- Two declaration tables do not merge only if an identifier has declarations that clash, and the error names it.
  pub merge_declarations-Clash :
      (l r : List SourceDeclaration) (e : ComposeError B)
      → IsTable l
      → IsTable r
      → merge_declarations {B = B} l r ≡ err e
      → (k : DeclarationId) × (x y : SourceDeclaration) × (find (λ d. d.id) k l ≡ some x)
        × (find (λ d. d.id) k r ≡ some y)
        × Clash x y
        × (e ≡ conflicting_declaration k)
  unfolding merge_declarations
  merge_declarations-Clash l r e tl tr h =
      let (k, x, y, p, q, c) =
        union-err (λ d. d.id) combine_declaration combine_declaration-keeps l r e h tl.0 tr.0 in
      let (n, w) =
        combine_declaration-Clash x y e
          (find-Good (λ d. d.id) (λ d. Occurrences d.occurrences) k l x tl.1 p)
          (find-Good (λ d. d.id) (λ d. Occurrences d.occurrences) k r y tr.1 q) c in
      (k, x, y, p, q, n, w ∙ ap conflicting_declaration (find-key (λ d. d.id) k r y q))
