-- ===== src/Contract/Hex/Laws.antt =====
-- The two directions between a digest and its text form (src/contract/ids.rs).
use parc.Prelude.{
  ℕ, ◌+◌, ◌-◌, ◌*◌, ◌/◌, ◌%◌, ◌<◌, ◌≡◌, refl, sym, ap, ◌∙◌, true, ◌&&◌, List, [], ◌∷◌, ◌++◌, Option,
  none, some, arith, ◌==◌, ==_iff, and_true, Bool-cases, inl, inr,
}
use parc.Prelude.Lists.{length, all, All}
use parc.Prelude.Text.{Text}
use parc.Contract.Checked.{ok}
use parc.Contract.Hex.{
  encode_hex, hex_digit, is_hex, decode_nibble, decode_pairs, strip_prefix, parse_digest,
  id_stripped, id_shaped,
}

abbrev pub IsByte : ℕ → Type 0
IsByte b = b < 256

strip_prefix-append : (p v : Text) → strip_prefix (p ++ v) p ≡ some v
unfolding strip_prefix
strip_prefix-append [] v = refl
strip_prefix-append (b ∷ p) v = rw ((==_iff b b).1 refl) (strip_prefix-append p v)

strip_prefix→append : (v p hex : Text) → strip_prefix v p ≡ some hex → v ≡ p ++ hex
unfolding strip_prefix
strip_prefix→append v [] hex h = cc
strip_prefix→append [] (b ∷ p) hex h = cc
strip_prefix→append (a ∷ v) (b ∷ p) hex h = ground (arith, strip_prefix→append v p hex)

length-encode_hex : (bs : List ℕ) → length (encode_hex bs) ≡ 2 * length bs
unfolding encode_hex
length-encode_hex [] = refl
length-encode_hex (b ∷ bs) = omega (arith, length-encode_hex bs)

nibble : (n : ℕ) → n < 16 → (is_hex (hex_digit n) ≡ true) × (decode_nibble (hex_digit n) ≡ n)
nibble n h = (ground arith, ground arith)

encode_hex-is_hex : (bs : List ℕ) → All IsByte bs → all is_hex (encode_hex bs) ≡ true
unfolding encode_hex
encode_hex-is_hex [] h = refl
encode_hex-is_hex (b ∷ bs) h =
    rw
      (
        (nibble (b / 16) (omega arith)).0,
        (nibble (b % 16) (omega arith)).0,
        encode_hex-is_hex bs h.1,
      )
      refl

decode_pairs-encode_hex : (bs : List ℕ) → All IsByte bs → decode_pairs (encode_hex bs) ≡ bs
unfolding encode_hex decode_pairs
decode_pairs-encode_hex [] h = refl
decode_pairs-encode_hex (b ∷ bs) h =
    rw
      (
        (nibble (b / 16) (omega arith)).1,
        (nibble (b % 16) (omega arith)).1,
        decode_pairs-encode_hex bs h.1,
      )
      (ap (λ x. x ∷ bs) (omega arith))

-- The text of a digest of 32 bytes parses back, under its prefix.
pub parse_digest-encode_hex :
    (p : Text) (bs : List ℕ)
    → length bs ≡ 32
    → All IsByte bs
    → parse_digest (p ++ encode_hex bs) p ≡ ok bs
unfolding parse_digest
parse_digest-encode_hex p bs l h =
    rw
      (
        strip_prefix-append p (encode_hex bs),
        length-encode_hex bs,
        l,
        encode_hex-is_hex bs h,
        decode_pairs-encode_hex bs h,
      )
      refl

digit_of_nibble :
    (b : ℕ) → is_hex b ≡ true → (decode_nibble b < 16) × (hex_digit (decode_nibble b) ≡ b)
digit_of_nibble b h = (ground arith, ground arith)

encode_hex-decode_pairs :
    (k : ℕ) (hex : Text)
    → length hex ≡ 2 * k
    → all is_hex hex ≡ true
    → encode_hex (decode_pairs hex) ≡ hex
unfolding encode_hex decode_pairs
encode_hex-decode_pairs k [] l a = refl
encode_hex-decode_pairs k (h ∷ []) l a = absurd (omega arith)
encode_hex-decode_pairs k (h ∷ t ∷ rest) l a =
    let (ah, a₁) = and_true (is_hex h) _ a in
    let (at_, ar) = and_true (is_hex t) _ a₁ in
    let (sh, eh) = digit_of_nibble h ah in
    let (st, et) = digit_of_nibble t at_ in
    let high : (decode_nibble h * 16 + decode_nibble t) / 16 ≡ decode_nibble h = omega arith in
    let low : (decode_nibble h * 16 + decode_nibble t) % 16 ≡ decode_nibble t = omega arith in
    rw (high, low, eh, et, encode_hex-decode_pairs (k - 1) rest (omega arith) ar) refl

id_shaped→eq : (hex : Text) (bs : List ℕ) → id_shaped hex ≡ ok bs → hex ≡ encode_hex bs
id_shaped→eq hex bs e = elim (Bool-cases (length hex == 64 && all is_hex hex)) [
  | inl y ↦
      let (l, a) = and_true (length hex == 64) _ y in
      sym (encode_hex-decode_pairs 32 hex ((==_iff _ _).0 l) a) ∙ ap encode_hex (cc (rw y at e))
  | inr n ↦ cc (rw n at e)
]

-- A text that parses is the text of the digest it parses to, behind the prefix: there is one
-- spelling of an identifier only, in lower case and of full length.
pub parse_digest→eq : (v p : Text) (bs : List ℕ) → parse_digest v p ≡ ok bs → v ≡ p ++ encode_hex bs
unfolding parse_digest
parse_digest→eq v p bs e = by_strip (strip_prefix v p) refl e
  where
    by_strip :
        (s : Option Text) → strip_prefix v p ≡ s → id_stripped p s ≡ ok bs → v ≡ p ++ encode_hex bs
    by_strip none q r = cc
    by_strip (some hex) q r =
        strip_prefix→append v p hex q ∙ ap (λ t. p ++ t) (id_shaped→eq hex bs r)
