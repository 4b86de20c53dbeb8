-- ===== src/Contract/Entity/Input.antt =====
-- What is hashed for an entity tells it from every other one (src/contract/ids.rs).
use parc.Prelude.{ℕ, zero, suc, ◌/◌, ◌%◌, ◌≡◌, ◌≢◌, refl, sym, ap, List, [], ◌∷◌, ◌++◌, arith}
use parc.Prelude.Lists.{length, All, length-append}
use parc.Prelude.Text.{Text, bytes}
use parc.Contract.Canonical.{
  IsSmall, IsField, le_bytes, le_bytes-injective, length-le_bytes, append_cancel,
  canonical_tokens_bytes-injective,
}
use parc.Contract.Declarations.{
  EntityNamespace, ordinary, tag, EntityScope, translation_unit, file, owner,
}
use parc.Contract.Entity.{
  be_bytes, label, hash_scope, EntityKey, named, anonymous, entity_fields, entity_input,
}

length-be_bytes : (k n : ℕ) → length (be_bytes k n) ≡ k
unfolding be_bytes
length-be_bytes zero n = refl
length-be_bytes (suc k) n =
    omega (arith, length-append (be_bytes k (n / 256)) (n % 256 ∷ []), length-be_bytes k (n / 256))

be_bytes-injective : (k n m : ℕ) → IsSmall k n → IsSmall k m → be_bytes k n ≡ be_bytes k m → n ≡ m
unfolding be_bytes
be_bytes-injective zero n m sn sm e = omega arith
be_bytes-injective (suc k) n m sn sm e =
    let (p, q) =
      append_cancel (be_bytes k (n / 256)) (be_bytes k (m / 256)) (n % 256 ∷ []) (m % 256 ∷ [])
        (omega (arith, length-be_bytes k (n / 256), length-be_bytes k (m / 256))) e in
    let high = be_bytes-injective k (n / 256) (m / 256) sn sm p in
    let low : n % 256 ≡ m % 256 = cc q in omega (arith, high, low)

-- An identifier has 32 bytes.
abbrev pub IsScope : EntityScope → Type 0
IsScope translation_unit = Unit
IsScope (file id) = IsSmall 32 id
IsScope (owner id) = IsSmall 32 id

-- The texts are shorter than 2 ^ 64 bytes, and an ordinal has 64 bits.
abbrev pub IsKey : EntityKey → Type 0
IsKey (named namespace scope name) = IsScope scope × IsField name
IsKey (anonymous scope tokens ordinal) = IsScope scope × (IsField tokens × IsSmall 8 ordinal)

hash_scope_cancel :
    (s t : EntityScope) (u v : List Text)
    → IsScope s
    → IsScope t
    → hash_scope s ++ u ≡ hash_scope t ++ v
    → (s ≡ t) × (u ≡ v)
unfolding hash_scope
hash_scope_cancel translation_unit translation_unit u v hs ht e = (refl, cc e)
hash_scope_cancel translation_unit (file b) u v hs ht e = cc e
hash_scope_cancel translation_unit (owner b) u v hs ht e = cc e
hash_scope_cancel (file a) translation_unit u v hs ht e = cc e
hash_scope_cancel (file a) (file b) u v hs ht e =
    let p : be_bytes 32 a ≡ be_bytes 32 b = cc e in
    (ap file (be_bytes-injective 32 a b hs ht p), cc e)
hash_scope_cancel (file a) (owner b) u v hs ht e = cc e
hash_scope_cancel (owner a) translation_unit u v hs ht e = cc e
hash_scope_cancel (owner a) (file b) u v hs ht e = cc e
hash_scope_cancel (owner a) (owner b) u v hs ht e =
    let p : be_bytes 32 a ≡ be_bytes 32 b = cc e in
    (ap owner (be_bytes-injective 32 a b hs ht p), cc e)

label-injective : (a b : EntityNamespace) → label a ≡ label b → a ≡ b
label-injective ordinary ordinary e = refl
label-injective ordinary tag e = cc
label-injective tag ordinary e = cc
label-injective tag tag e = refl

label-ne-anonymous : (a : EntityNamespace) → label a ≢ bytes "anonymous"
label-ne-anonymous ordinary e = cc
label-ne-anonymous tag e = cc

cons_cancel : {x y : Text} {xs ys : List Text} → x ∷ xs ≡ y ∷ ys → (x ≡ y) × (xs ≡ ys)
cons_cancel p = (cc p, cc p)

entity_fields-injective :
    (a b : EntityKey) → IsKey a → IsKey b → entity_fields a ≡ entity_fields b → a ≡ b
unfolding entity_fields
entity_fields-injective (named n s x) (named m t y) ha hb e =
    let (l, rest) = cons_cancel e in
    let (p, q) = hash_scope_cancel s t (x ∷ []) (y ∷ []) ha.0 hb.0 rest in
    cc (label-injective n m l, p, (cons_cancel q).0)
entity_fields-injective (named n s x) (anonymous t y j) ha hb e =
    absurd (label-ne-anonymous n (cons_cancel e).0)
entity_fields-injective (anonymous s x i) (named m t y) ha hb e =
    absurd (label-ne-anonymous m (sym (cons_cancel e).0))
entity_fields-injective (anonymous s x i) (anonymous t y j) ha hb e =
    let (_, rest) = cons_cancel e in
    let (p, q) =
      hash_scope_cancel s t (x ∷ le_bytes 8 i ∷ []) (y ∷ le_bytes 8 j ∷ []) ha.0 hb.0 rest in
    let (u, v) = cons_cancel q in
    cc (p, u, le_bytes-injective 8 i j ha.1.1 hb.1.1 (cons_cancel v).0)

All-append : (xs ys : List Text) → All IsField xs → All IsField ys → All IsField (xs ++ ys)
All-append [] ys a b = b
All-append (x ∷ xs) ys a b = (a.0, All-append xs ys a.1 b)

scope-IsField : (s : EntityScope) → All IsField (hash_scope s)
unfolding hash_scope
scope-IsField translation_unit = (omega arith, tt)
scope-IsField (file id) = (omega arith, (omega (arith, length-be_bytes 32 id), tt))
scope-IsField (owner id) = (omega arith, (omega (arith, length-be_bytes 32 id), tt))

label-IsField : (a : EntityNamespace) → IsField (label a)
label-IsField ordinary = omega arith
label-IsField tag = omega arith

fields-IsField : (a : EntityKey) → IsKey a → All IsField (entity_fields a)
unfolding entity_fields
fields-IsField (named n s x) h =
    (label-IsField n, All-append (hash_scope s) (x ∷ []) (scope-IsField s) (h.1, tt))
fields-IsField (anonymous s x i) h = (
  omega arith,
  All-append (hash_scope s) (x ∷ le_bytes 8 i ∷ []) (scope-IsField s)
      (h.1.0, (omega (arith, length-le_bytes 8 i), tt)),
)

-- Two keys for which the hasher sees the same bytes are the same: the kind, the namespace, the scope and the
-- name, or the tokens and the ordinal. Texts are shorter than 2 ^ 64 bytes, identifiers have 32, ordinals 8.
pub entity_input-injective :
    (a b : EntityKey) → IsKey a → IsKey b → entity_input a ≡ entity_input b → a ≡ b
unfolding entity_input
entity_input-injective a b ha hb e = entity_fields-injective a b ha hb (
    canonical_tokens_bytes-injective (entity_fields a) (entity_fields b) (fields-IsField a ha)
      (fields-IsField b hb) e)
