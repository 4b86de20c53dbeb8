-- ===== src/Contract/Entity.antt =====
-- The identifiers of entities of src/contract/ids.rs. The hash (BLAKE3 in its derive-key mode) and the
-- normalization of Unicode are parameters.
pub mod Input
use parc.Prelude.{ℕ, zero, suc, ◌/◌, ◌%◌, List, [], ◌∷◌, ◌++◌}
use parc.Prelude.Text.{Text, bytes}
use parc.Contract.Checked.{Checked, ok, err, ◌>>=◌}
use parc.Contract.Hex.{IdError, empty_name}
use parc.Contract.Canonical.{le_bytes, canonical_tokens_bytes}
use parc.Contract.Declarations.{
  EntityNamespace, ordinary, tag, EntityScope, translation_unit, file, owner,
}

-- The bytes of an identifier, the highest first.
unfoldable pub be_bytes : ℕ → ℕ → Text
be_bytes zero n = []
be_bytes (suc k) n = be_bytes k (n / 256) ++ n % 256 ∷ []

abbrev pub label : EntityNamespace → Text
label ordinary = bytes "ordinary"
label tag = bytes "tag"

-- The fields of `hash_scope`.
unfoldable pub hash_scope : EntityScope → List Text
unfolding be_bytes
hash_scope translation_unit = bytes "translation-unit" ∷ []
hash_scope (file id) = bytes "file" ∷ be_bytes 32 id ∷ []
hash_scope (owner id) = bytes "owner" ∷ be_bytes 32 id ∷ []

-- The arguments of `EntityId::named`, its name normalized, and of `EntityId::anonymous`.
pub data EntityKey : Type 0 where
  named : EntityNamespace → EntityScope → Text → EntityKey
  anonymous : EntityScope → Text → ℕ → EntityKey

-- The fields in the order in which they are hashed.
unfoldable pub entity_fields : EntityKey → List Text
unfolding hash_scope le_bytes
entity_fields (named namespace scope name) = label namespace ∷ (hash_scope scope ++ name ∷ [])
entity_fields (anonymous scope tokens ordinal) =
    bytes "anonymous" ∷ (hash_scope scope ++ tokens ∷ le_bytes 8 ordinal ∷ [])

-- What the hasher sees of a key.
unfoldable pub entity_input : EntityKey → Text
unfolding entity_fields canonical_tokens_bytes
entity_input key = canonical_tokens_bytes (entity_fields key)

module _ (nfc : Text → Text) where
  abbrev not_empty : Text → Checked IdError Text
  not_empty [] = err empty_name
  not_empty (b ∷ bs) = ok (b ∷ bs)

  unfoldable pub normalize_identifier : Text → Checked IdError Text
  normalize_identifier name = not_empty (nfc name)

  module _ {Digest : Type 0} (hash : Text → Text → Digest) where
    unfoldable pub entity_named : EntityNamespace → EntityScope → Text → Checked IdError Digest
    unfolding normalize_identifier entity_input
    entity_named namespace scope name = normalize_identifier name >>= λ n.
        ok (hash (bytes "follang.parc.entity-id.v1") (entity_input (named namespace scope n)))

    unfoldable pub entity_anonymous : EntityScope → Text → ℕ → Digest
    unfolding entity_input
    entity_anonymous scope tokens ordinal =
        hash (bytes "follang.parc.entity-id.v1") (entity_input (anonymous scope tokens ordinal))
