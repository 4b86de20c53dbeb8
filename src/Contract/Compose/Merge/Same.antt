-- ===== src/Contract/Compose/Merge/Same.antt =====
-- The comparison of two declarations in merge_declarations of src/contract/compose.rs.
use parc.Prelude.{Bool, ◌≡◌, ◌↔◌, sym, ◌&&◌, List, true, arith}
use parc.Prelude.Order.{same, same_iff}
use parc.Contract.Declarations.{SourceDeclaration, DeclarationOccurrence}
use parc.Contract.Compose.Equal.{
  DeclarationIdentity-discrete, name-discrete, Linkage-discrete, Visibility-discrete,
  SupportStatus-discrete, SourceDeclarationKind-discrete,
}
use parc.Contract.Compose.Merge.{same_declaration}

-- Two declarations that differ at most in their occurrences and identifiers.
pub record Same (a b : SourceDeclaration) : Type 0 where
  pub identity : a.identity ≡ b.identity
  pub name : a.name ≡ b.name
  pub linkage : a.linkage ≡ b.linkage
  pub visibility : a.visibility ≡ b.visibility
  pub support : a.support ≡ b.support
  pub kind : a.kind ≡ b.kind

-- The tests in a row.
all_six :
    (a b c d e f : Bool)
    → (a && (b && (c && (d && (e && f)))) ≡ true)
      ↔ ((a ≡ true) × (b ≡ true) × (c ≡ true) × (d ≡ true) × (e ≡ true) × (f ≡ true))
all_six a b c d e f = ground arith

pub same_declaration_iff : (a b : SourceDeclaration) → (same_declaration a b ≡ true) ↔ Same a b
same_declaration_iff a b =
    let i = same_iff DeclarationIdentity-discrete a.identity b.identity in
    let n = same_iff name-discrete a.name b.name in
    let l = same_iff Linkage-discrete a.linkage b.linkage in
    let v = same_iff Visibility-discrete a.visibility b.visibility in
    let s = same_iff SupportStatus-discrete a.support b.support in
    let k = same_iff SourceDeclarationKind-discrete a.kind b.kind in
    let six =
      all_six (same DeclarationIdentity-discrete a.identity b.identity)
        (same name-discrete a.name b.name) (same Linkage-discrete a.linkage b.linkage)
        (same Visibility-discrete a.visibility b.visibility)
        (same SupportStatus-discrete a.support b.support)
        (same SourceDeclarationKind-discrete a.kind b.kind) in
    (
      λ h.
          let (x0, x1, x2, x3, x4, x5) = six.0 h in
          record {
            identity = i.0 x0;
            name = n.0 x1;
            linkage = l.0 x2;
            visibility = v.0 x3;
            support = s.0 x4;
            kind = k.0 x5;
          },
      λ e.
          six.1 (
            i.1 e.identity,
            n.1 e.name,
            l.1 e.linkage,
            v.1 e.visibility,
            s.1 e.support,
            k.1 e.kind,
          ),
    )

pub Same-sym : (a b : SourceDeclaration) → Same a b → Same b a
Same-sym a b e = record {
  identity = sym e.identity;
  name = sym e.name;
  linkage = sym e.linkage;
  visibility = sym e.visibility;
  support = sym e.support;
  kind = sym e.kind;
}

abbrev pub with_occurrences : SourceDeclaration → List DeclarationOccurrence → SourceDeclaration
with_occurrences d os = record d { occurrences = os }

pub with_occurrences-Same :
    (a b : SourceDeclaration) (os : List DeclarationOccurrence)
    → a.id ≡ b.id
    → Same a b
    → with_occurrences a os ≡ with_occurrences b os
with_occurrences-Same a b os p e = λ i. record {
  id = p i;
  identity = e.identity i;
  name = e.name i;
  linkage = e.linkage i;
  visibility = e.visibility i;
  occurrences = os;
  support = e.support i;
  kind = e.kind i;
}
