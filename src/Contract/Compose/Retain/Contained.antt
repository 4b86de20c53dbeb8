-- ===== src/Contract/Compose/Retain/Contained.antt =====
-- What `SourcePackage::retain` of src/contract/compose.rs hands to the construction of a package is
-- self-contained: it holds what the roots reach, and nothing else.
use parc.Prelude.{
  ◌≡◌, inl, inr, ◌↔◌, refl, ap, ◌∙◌, true, arith, ==_iff, ◌==◌, List, [], ◌∷◌, Option, none, some,
  if◌then◌else◌, Bool-cases,
}
use parc.Contract.Checked.{Checked, ok, err}
use parc.Contract.Selection.{DeclarationId, Selection, member}
use parc.Contract.Declarations.{SourceDeclaration}
use parc.Contract.Package.{SourcePackageInput, declaration_in}
use parc.Contract.Compose.Closure.{declaration_closure, Closed}
use parc.Contract.Compose.Closure.Refers.{Refers}
use parc.Contract.Compose.Closure.Reach.{
  Reach, root, step, declaration_closure-ends, declaration_closure-Reach,
  declaration_closure-missing,
}
use parc.Contract.Compose.Merge.{ComposeError, missing_declaration, build}
use parc.Contract.Compose.Retain.{
  keep_declarations, selected_roots, retained_input, retain, project,
}

abbrev kept :
    List DeclarationId → DeclarationId → Option SourceDeclaration → Option SourceDeclaration
kept out id o = if member out id then o else none

declaration_in-keep :
    (out : List DeclarationId) (ds : List SourceDeclaration) (id : DeclarationId)
    → declaration_in (keep_declarations out ds) id
      ≡ (if member out id then declaration_in ds id else none)
unfolding declaration_in keep_declarations
declaration_in-keep out [] id = ground arith
declaration_in-keep out (d ∷ ds) id = elim (Bool-cases (d.id == id)) [
  | inl e ↦
      let same : member out d.id ≡ member out id = ap (member out) ((==_iff d.id id).0 e) in
      ground (arith, same, declaration_in-keep out ds id)
  | inr e ↦ ground (arith, declaration_in-keep out ds id)
]

module _ {Target : Type 0} (source input : SourcePackageInput Target)
    (roots : List DeclarationId) where
  -- The input holds exactly the declarations of the source that the roots reach, as they are, and
  -- all that these refer to.
  pub record SelfContained : Type 0 where
    pub exact :
        (id : DeclarationId) (d : SourceDeclaration)
        → (declaration_in input.declarations id ≡ some d)
          ↔ ((declaration_in source.declarations id ≡ some d) × Reach source.declarations roots id)
    pub selected :
        (id : DeclarationId)
        → member roots id ≡ true
        → (d : SourceDeclaration) × (declaration_in input.declarations id ≡ some d)
    pub closed :
        (id next : DeclarationId) (d : SourceDeclaration)
        → declaration_in input.declarations id ≡ some d
        → Refers d next
        → (e : SourceDeclaration) × (declaration_in input.declarations next ≡ some e)

module _ {Target : Type 0} where
  retained_input-SelfContained :
      (source : SourcePackageInput Target) (roots out : List DeclarationId)
      → declaration_closure source.declarations roots ≡ some (ok out)
      → SelfContained source (retained_input source out) roots
  unfolding retained_input
  retained_input-SelfContained source roots out h = record {
    exact = exact;
    selected = λ id m. found id (root m);
    closed = λ id next d e r. found next (step ((exact id d).0 e).1 ((exact id d).0 e).0 r);
  }
    where
      ds : List SourceDeclaration
      ds = source.declarations

      exact :
          (id : DeclarationId) (d : SourceDeclaration)
          → (declaration_in (keep_declarations out ds) id ≡ some d)
            ↔ ((declaration_in ds id ≡ some d) × Reach ds roots id)
      exact id d =
          let reached = (declaration_closure-Reach ds roots out h id).0 in
          (
            λ e. elim (Bool-cases (member out id)) [
              | inl m ↦ (ground (arith, declaration_in-keep out ds id), reached.0 m)
              | inr m ↦
                  let k : declaration_in (keep_declarations out ds) id ≡ none =
                    ground (arith, declaration_in-keep out ds id) in
                  cc (k, e)
            ],
            λ e.
                let m = reached.1 e.1 in
                let k : declaration_in (keep_declarations out ds) id ≡ declaration_in ds id =
                  ground (arith, declaration_in-keep out ds id) in
                k ∙ e.0,
          )

      found :
          (id : DeclarationId)
          → Reach ds roots id
          → (d : SourceDeclaration) × (declaration_in (keep_declarations out ds) id ≡ some d)
      found id r =
          let (reached, declared) = declaration_closure-Reach ds roots out h id in
          let (d, e) = declared (reached.1 r) in (d, (exact id d).1 (e, r))

module _ {Target B Package : Type 0} (try_new : SourcePackageInput Target → Checked B Package) where
  -- What `retain` may return for the roots: an identifier that they reach and that is not declared, or
  -- what is built of a self-contained input.
  pub data Retained (source : SourcePackageInput Target) (roots : List DeclarationId)
      : Checked (ComposeError B) Package → Type 0 where
    missing :
        {id : DeclarationId}
        → Reach source.declarations roots id
        → declaration_in source.declarations id ≡ none
        → Retained source roots (err (missing_declaration id))
    built :
        {input : SourcePackageInput Target}
        → SelfContained source input roots
        → Retained source roots (build try_new input)

  -- If the selection has roots, `retain` returns, and its result is as `Retained` says.
  pub retain-Retained :
      (source : SourcePackageInput Target) (selection : Selection) (roots : List DeclarationId)
      → selected_roots {B = B} source.declarations selection ≡ ok roots
      → (r : Checked (ComposeError B) Package) × (retain try_new source selection ≡ some r)
        × Retained source roots r
  unfolding retain
  retain-Retained source selection roots h =
      let (c, e) = declaration_closure-ends source.declarations roots in by_closure c e
    where
      by_closure :
          (c : Closed)
          → declaration_closure source.declarations roots ≡ some c
          → (r : Checked (ComposeError B) Package) × (project try_new source
                (selected_roots source.declarations selection)
              ≡ some r)
            × Retained source roots r
      by_closure (ok out) e = (
        build try_new (retained_input source out),
        rw (h, e) refl,
        built (retained_input-SelfContained source roots out e),
      )
      by_closure (err id) e =
          let (r, u) = declaration_closure-missing source.declarations roots id e in
          (err (missing_declaration id), rw (h, e) refl, missing r u)
