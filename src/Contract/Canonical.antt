-- ===== src/Contract/Canonical.antt =====
-- src/contract/canonical.rs and `canonical_tokens_bytes` of src/contract/ids.rs: fields with their
-- length in front.
use parc.Prelude.{
  ℕ, zero, suc, ◌/◌, ◌%◌, ◌^◌, ◌<◌, ◌≡◌, refl, sym, ap, ◌∙◌, List, [], ◌∷◌, ◌++◌, arith,
  append_assoc, append-nil, ◌≢◌,
}
use parc.Prelude.Lists.{length, All}
use parc.Prelude.Text.{Text}

-- The low `k` bytes of a number, the lowest first.
unfoldable pub le_bytes : ℕ → ℕ → List ℕ
le_bytes zero n = []
le_bytes (suc k) n = n % 256 ∷ le_bytes k (n / 256)

-- `(bytes.len() as u64).to_le_bytes()`, then the bytes.
unfoldable pub push_field : List ℕ → List ℕ → List ℕ
unfolding le_bytes
push_field out bytes = out ++ (le_bytes 8 (length bytes % 2 ^ 64) ++ bytes)

-- The loop of `canonical_tokens_bytes`.
unfoldable pub push_tokens : List ℕ → List Text → List ℕ
push_tokens out [] = out
push_tokens out (t ∷ ts) = push_tokens (push_field out t) ts

unfoldable pub canonical_tokens_bytes : List Text → List ℕ
unfolding push_tokens push_field
canonical_tokens_bytes tokens = push_tokens [] tokens

-- The field of `bytes` on its own.
field_of : List ℕ → List ℕ
field_of bytes = le_bytes 8 (length bytes % 2 ^ 64) ++ bytes

fields : List Text → List ℕ
fields [] = []
fields (t ∷ ts) = field_of t ++ fields ts

push_tokens-eq-fields : (out : List ℕ) (ts : List Text) → push_tokens out ts ≡ out ++ fields ts
unfolding push_tokens push_field fields field_of
push_tokens-eq-fields out [] = sym (append-nil out)
push_tokens-eq-fields out (t ∷ ts) =
    push_tokens-eq-fields (push_field out t) ts ∙ append_assoc out (field_of t) (fields ts)

-- `n` fits `k` bytes.
abbrev pub IsSmall : ℕ → ℕ → Type 0
IsSmall zero n = n ≡ 0
IsSmall (suc k) n = IsSmall k (n / 256)

cons-injective : {a b : ℕ} {xs ys : List ℕ} → a ∷ xs ≡ b ∷ ys → (a ≡ b) × (xs ≡ ys)
cons-injective p = (cc p, cc p)

pub le_bytes-injective :
    (k n m : ℕ) → IsSmall k n → IsSmall k m → le_bytes k n ≡ le_bytes k m → n ≡ m
unfolding le_bytes
le_bytes-injective zero n m sn sm e = omega arith
le_bytes-injective (suc k) n m sn sm e =
    let (low, high) = cons-injective e in
    omega (arith, le_bytes-injective k (n / 256) (m / 256) sn sm high)

pub length-le_bytes : (k n : ℕ) → length (le_bytes k n) ≡ k
unfolding le_bytes
length-le_bytes zero n = refl
length-le_bytes (suc k) n = ap suc (length-le_bytes k (n / 256))

pub append_cancel : (x y u v : List ℕ) → length x ≡ length y → x ++ u ≡ y ++ v → (x ≡ y) × (u ≡ v)
append_cancel [] [] u v l e = (refl, e)
append_cancel [] (b ∷ y) u v l e = absurd (omega arith)
append_cancel (a ∷ x) [] u v l e = absurd (omega arith)
append_cancel (a ∷ x) (b ∷ y) u v l e =
    let (p, q) = cons-injective e in
    let (r, s) = append_cancel x y u v (omega arith) q in (cc (p, r), s)

-- The length of a field in memory fits 64 bits.
abbrev pub IsField : Text → Type 0
IsField t = length t < 2 ^ 64

field_cancel :
    (s t u v : List ℕ)
    → IsField s
    → IsField t
    → field_of s ++ u ≡ field_of t ++ v
    → (s ≡ t) × (u ≡ v)
unfolding field_of
field_cancel s t u v hs ht e =
    let whole = sym (append_assoc _ s u) ∙ e ∙ append_assoc _ t v in
    let (p, q) =
      append_cancel (le_bytes 8 (length s % 2 ^ 64)) (le_bytes 8 (length t % 2 ^ 64)) (s ++ u)
        (t ++ v) (length-le_bytes 8 _ ∙ sym (length-le_bytes 8 _)) whole in
    let n =
      le_bytes-injective 8 (length s % 2 ^ 64) (length t % 2 ^ 64) (omega arith) (omega arith) p in
    append_cancel s t u v (omega arith) q

field-ne-nil : (t u : List ℕ) → field_of t ++ u ≢ []
unfolding field_of le_bytes
field-ne-nil t u e = cc

fields-injective :
    (ss ts : List Text) → All IsField ss → All IsField ts → fields ss ≡ fields ts → ss ≡ ts
unfolding fields
fields-injective [] [] hs ht e = refl
fields-injective [] (t ∷ ts) hs ht e = absurd (field-ne-nil t (fields ts) (sym e))
fields-injective (s ∷ ss) [] hs ht e = absurd (field-ne-nil s (fields ss) e)
fields-injective (s ∷ ss) (t ∷ ts) hs ht e =
    let (p, q) = field_cancel s t (fields ss) (fields ts) hs.0 ht.0 e in
    cc (p, fields-injective ss ts hs.1 ht.1 q)

-- Two lists of tokens, each shorter than 2 ^ 64 bytes, that have the same canonical bytes are the
-- same list.
pub canonical_tokens_bytes-injective :
    (ss ts : List Text)
    → All IsField ss
    → All IsField ts
    → canonical_tokens_bytes ss ≡ canonical_tokens_bytes ts
    → ss ≡ ts
unfolding canonical_tokens_bytes
canonical_tokens_bytes-injective ss ts hs ht e =
    fields-injective ss ts hs ht
      (sym (push_tokens-eq-fields [] ss) ∙ e ∙ push_tokens-eq-fields [] ts)
