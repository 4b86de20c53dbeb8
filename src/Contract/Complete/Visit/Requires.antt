-- ===== src/Contract/Complete/Visit/Requires.antt =====
-- What a whole declaration asks for and rejects (src/contract/complete.rs).
use parc.Prelude.{
  ℕ, ◌+◌, ◌≡◌, inl, inr, ◌↔◌, refl, Bool, true, false, List, [], ◌∷◌, ◌++◌, Option, none, some,
  if◌then◌else◌,
}
use parc.Prelude.Lists.{All}
use parc.Prelude.Text.{Text, bytes}
use parc.Contract.Selection.{DeclarationId}
use parc.Contract.Diagnostics.{SupportStatus, is_supported}
use parc.Contract.Types.{CType, SourceAttribute}
use parc.Contract.Declarations.{
  SourceDeclaration, SourceDeclarationKind, DeclarationOccurrence, SourceParameter, SourceField,
  SourceEnumVariant, RecordCompleteness, function, record_, enum, type_alias, variable,
}
use parc.Contract.Complete.Visit.{
  Need, opaque_sufficient, definition, Walk, reject, reject_attributes, relevant, indexed,
  reject_occurrences, reject_part, visit_source_parameters, visit_fields, visit_variants,
  visit_underlying, require_complete, is_opaque, visit_declaration_kind,
  validate_declaration_closure, incomplete_record, CompletionBlocker,
}
use parc.Contract.Complete.Visit.Effect.{
  Effect, Effect-id, Effect-block, Effect-then, Effect-as, Wanted, no_wants, both,
}
use parc.Contract.Complete.Visit.Wants.{
  ConventionSupported, TypeSupported, TypeWants, Effect-pre, Effect-none, Effect-never,
  status-Effect, convention-Effect, type-Effect,
}

abbrev PartSupported : SupportStatus → List SourceAttribute → Type 0
PartSupported s attributes =
    (is_supported s ≡ true) × All (λ a. relevant a.disposition ≡ false) attributes

-- What is needed of the types of a list.
abbrev pub SomeWants : {A : Type 0} → (A → CType) → List A → Wanted
SomeWants ty [] = no_wants
SomeWants ty (x ∷ xs) = both (TypeWants false (ty x)) (SomeWants ty xs)

abbrev pub OptionWants : Option CType → Wanted
OptionWants none = no_wants
OptionWants (some ty) = TypeWants false ty

abbrev OptionSupported : Option CType → Type 0
OptionSupported none = Unit
OptionSupported (some ty) = TypeSupported ty

abbrev IsComplete : RecordCompleteness → Type 0
IsComplete RecordCompleteness.complete = Unit
IsComplete RecordCompleteness.incomplete = ⊥

-- What a declaration must be for the need. Of a record behind a pointer nothing is asked.
abbrev pub BodySupported : Need → SourceDeclarationKind → Type 0
BodySupported need (function f) =
    (ConventionSupported f.calling_convention × TypeSupported f.return_type)
    × All (λ p. PartSupported p.support p.attributes × TypeSupported p.ty) f.parameters
BodySupported opaque_sufficient (record_ r) = Unit
BodySupported definition (record_ r) =
    IsComplete r.completeness
    × All (λ f. PartSupported f.support f.attributes × TypeSupported f.ty) r.fields
BodySupported need (enum e) =
    OptionSupported e.explicit_underlying_type
    × All (λ x. PartSupported x.support x.attributes) e.variants
BodySupported need (type_alias a) = TypeSupported a.target
BodySupported need (variable x) = TypeSupported x.ty
BodySupported need (SourceDeclarationKind.unsupported u) = ⊥

-- The declarations that one names, with the needs.
abbrev pub BodyWants : Need → SourceDeclarationKind → Wanted
BodyWants need (function f) =
    both (TypeWants false f.return_type) (SomeWants (λ p. p.ty) f.parameters)
BodyWants opaque_sufficient (record_ r) = no_wants
BodyWants definition (record_ r) = SomeWants (λ f. f.ty) r.fields
BodyWants need (enum e) = OptionWants e.explicit_underlying_type
BodyWants need (type_alias a) = TypeWants (is_opaque need) a.target
BodyWants need (variable x) = TypeWants false x.ty
BodyWants need (SourceDeclarationKind.unsupported u) = no_wants

unfoldable pub DeclarationSupported : Need → SourceDeclaration → Type 0
unfolding TypeSupported
DeclarationSupported need d =
    ((is_supported d.support ≡ true)
      × All (λ o. All (λ a. relevant a.disposition ≡ false) o.attributes) d.occurrences)
    × BodySupported need d.kind

unfoldable pub Wants : Need → SourceDeclaration → Wanted
unfolding TypeWants
Wants need d = BodyWants need d.kind

Effect-same : {g : Walk → Walk} {P Q : Type 0} {N : Wanted} → (P ↔ Q) → Effect g P N → Effect g Q N
Effect-same i e = Effect-as i (λ t m. ((λ n. n), (λ n. n))) e

-- Behind a part, one that asks for nothing.
Effect-post :
    {f g : Walk → Walk} {P Q : Type 0} {N : Wanted}
    → Effect f P N
    → Effect g Q no_wants
    → Effect (λ v. g (f v)) (P × Q) N
Effect-post a b =
    Effect-as ((λ p. p), (λ p. p))
      (λ t m. ((λ n. elim n [ inl x ↦ x | inr y ↦ absurd y ]), (λ n. inl n))) (Effect-then a b)

attribute-Effect :
    (id : DeclarationId) (path : Text) (spelling : Text) (b : Bool)
    → Effect (λ v. if b then reject id path spelling v else v) (b ≡ false) no_wants
attribute-Effect id path spelling true =
    Effect-never (CompletionBlocker.unsupported id path spelling) (λ e. cc)
attribute-Effect id path spelling false = Effect-none refl

attributes-Effect :
    (id : DeclarationId) (path : Text) (index : ℕ) (attributes : List SourceAttribute)
    → Effect
        (reject_attributes id path index attributes)
        (All (λ a. relevant a.disposition ≡ false) attributes)
        no_wants
unfolding reject_attributes
attributes-Effect id path index [] = Effect-id
attributes-Effect id path index (a ∷ rest) =
    Effect-pre (attribute-Effect id (indexed path index) a.spelling (relevant a.disposition))
      (attributes-Effect id path (index + 1) rest)

occurrences-Effect :
    (id : DeclarationId) (index : ℕ) (os : List DeclarationOccurrence)
    → Effect
        (reject_occurrences id index os)
        (All (λ o. All (λ a. relevant a.disposition ≡ false) o.attributes) os)
        no_wants
unfolding reject_occurrences
occurrences-Effect id index [] = Effect-id
occurrences-Effect id index (o ∷ rest) =
    Effect-pre
      (attributes-Effect id (indexed (bytes "occurrences") index ++ bytes ".attributes") 0
        o.attributes)
      (occurrences-Effect id (index + 1) rest)

part-Effect :
    (id : DeclarationId) (path : Text) (s : SupportStatus) (attributes : List SourceAttribute)
    → Effect (reject_part id path s attributes) (PartSupported s attributes) no_wants
unfolding reject_part
part-Effect id path s attributes =
    Effect-pre (status-Effect id (path ++ bytes ".support") s)
      (attributes-Effect id (path ++ bytes ".attributes") 0 attributes)

source_parameters-Effect :
    (id : DeclarationId) (index : ℕ) (ps : List SourceParameter)
    → Effect
        (visit_source_parameters id index ps)
        (All (λ p. PartSupported p.support p.attributes × TypeSupported p.ty) ps)
        (SomeWants (λ p. p.ty) ps)
unfolding visit_source_parameters
source_parameters-Effect id index [] = Effect-id
source_parameters-Effect id index (p ∷ rest) =
    let path = indexed (bytes "kind.function.parameters") index in
    Effect-then
      (Effect-pre (part-Effect id path p.support p.attributes)
        (type-Effect id (path ++ bytes ".ty") p.ty false))
      (source_parameters-Effect id (index + 1) rest)

fields-Effect :
    (id : DeclarationId) (index : ℕ) (fs : List SourceField)
    → Effect
        (visit_fields id index fs)
        (All (λ f. PartSupported f.support f.attributes × TypeSupported f.ty) fs)
        (SomeWants (λ f. f.ty) fs)
unfolding visit_fields
fields-Effect id index [] = Effect-id
fields-Effect id index (f ∷ rest) =
    let path = indexed (bytes "kind.record.fields") index in
    Effect-then
      (Effect-pre (part-Effect id path f.support f.attributes)
        (type-Effect id (path ++ bytes ".ty") f.ty false))
      (fields-Effect id (index + 1) rest)

variants-Effect :
    (id : DeclarationId) (index : ℕ) (xs : List SourceEnumVariant)
    → Effect
        (visit_variants id index xs)
        (All (λ x. PartSupported x.support x.attributes) xs)
        no_wants
unfolding visit_variants
variants-Effect id index [] = Effect-id
variants-Effect id index (x ∷ rest) =
    Effect-pre (part-Effect id (indexed (bytes "kind.enum.variants") index) x.support x.attributes)
      (variants-Effect id (index + 1) rest)

underlying-Effect :
    (id : DeclarationId) (o : Option CType)
    → Effect (visit_underlying id o) (OptionSupported o) (OptionWants o)
underlying-Effect id none = Effect-id
underlying-Effect id (some ty) =
    type-Effect id (bytes "kind.enum.explicit_underlying_type") ty false

require_complete-Effect :
    (id : DeclarationId) (c : RecordCompleteness)
    → Effect (require_complete id c) (IsComplete c) no_wants
require_complete-Effect id RecordCompleteness.complete = Effect-id
require_complete-Effect id RecordCompleteness.incomplete = Effect-block (incomplete_record id)

body-Effect :
    (id : DeclarationId) (need : Need) (k : SourceDeclarationKind)
    → Effect (visit_declaration_kind id need k) (BodySupported need k) (BodyWants need k)
unfolding visit_declaration_kind
body-Effect id need (function f) =
    Effect-then
      (Effect-pre
        (convention-Effect id (bytes "kind.function.calling_convention") f.calling_convention)
        (type-Effect id (bytes "kind.function.return_type") f.return_type false))
      (source_parameters-Effect id 0 f.parameters)
body-Effect id opaque_sufficient (record_ r) = Effect-id
body-Effect id definition (record_ r) =
    Effect-pre (require_complete-Effect id r.completeness) (fields-Effect id 0 r.fields)
body-Effect id need (enum e) =
    Effect-post (underlying-Effect id e.explicit_underlying_type) (variants-Effect id 0 e.variants)
body-Effect id need (type_alias a) =
    type-Effect id (bytes "kind.type_alias.target") a.target (is_opaque need)
body-Effect id need (variable x) = type-Effect id (bytes "kind.variable.ty") x.ty false
body-Effect id need (SourceDeclarationKind.unsupported u) =
    Effect-block (CompletionBlocker.unsupported id (bytes "kind.unsupported") u.spelling)

pub declaration-Effect :
    (d : SourceDeclaration) (need : Need)
    → Effect (validate_declaration_closure d need) (DeclarationSupported need d) (Wants need d)
unfolding validate_declaration_closure DeclarationSupported Wants
declaration-Effect d need =
    Effect-pre
      (Effect-pre (status-Effect d.id (bytes "support") d.support)
        (occurrences-Effect d.id 0 d.occurrences))
      (body-Effect d.id need d.kind)
