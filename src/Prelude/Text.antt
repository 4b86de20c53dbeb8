-- ===== src/Prelude/Text.antt =====
-- A Rust `str` is the list of its bytes. Equality of texts, prefixes, and the part of
-- `std::str::from_utf8` that the program relies on.
use Prim.Native.Char.{code}
use Prim.Native.Nat.{ℕ, zero, suc, ◌<◌}
use Prim.Native.String.{String}
use mathlib.Core.Path.{◌≡◌, refl}
use mathlib.Core.Logic.{◌↔◌}
use mathlib.Core.Bool.{Bool, true, false, ◌&&◌}
use mathlib.Core.List.{List, [], ◌∷◌, ◌++◌}
use native.Mathlib.Omega.{arith}
use parc.Prelude.Lists.{All}
use parc.Prelude.Tests.{◌==◌, leb, ltb, if◌then◌else◌, ==_iff, ltb_iff}

abbrev pub Text : Type 0
Text = List ℕ

-- The bytes of an ASCII literal.
abbrev pub bytes : String → Text
bytes String.[] = []
bytes (String.◌∷◌ c s) = code c ∷ bytes s

abbrev pub text_eq : Text → Text → Bool
text_eq [] [] = true
text_eq (a ∷ s) (b ∷ t) = a == b && text_eq s t
text_eq _ _ = false

pub text_eq_refl : (a : Text) → text_eq a a ≡ true
text_eq_refl [] = refl
text_eq_refl (x ∷ xs) = ground (arith, text_eq_refl xs)

pub text_eq→eq : (a b : Text) → text_eq a b ≡ true → a ≡ b
text_eq→eq [] [] h = refl
text_eq→eq [] (y ∷ ys) h = cc
text_eq→eq (x ∷ xs) [] h = cc
text_eq→eq (x ∷ xs) (y ∷ ys) h = ground (arith, ==_iff x y, text_eq→eq xs ys)

pub text_eq_iff : (a b : Text) → (text_eq a b ≡ true) ↔ (a ≡ b)
text_eq_iff a b = (text_eq→eq a b, λ p. rw p (text_eq_refl b))

abbrev pub starts_with : Text → Text → Bool
starts_with _ [] = true
starts_with [] (p ∷ ps) = false
starts_with (x ∷ xs) (p ∷ ps) = x == p && starts_with xs ps

-- A byte that continues a UTF-8 sequence.
abbrev pub is_continuation : ℕ → Bool
is_continuation b = leb 0x80 b && leb b 0xbf

-- Where a scan of UTF-8 stands (the Unicode standard, table 3-7): between two characters, in a
-- character that wants `suc n` more bytes, the next of them from `lo` to `hi`, or past an error.
pub data Utf8 : Type 0 where
  start : Utf8
  more : ℕ → ℕ → ℕ → Utf8
  bad : Utf8

unfoldable pub utf8_step : Utf8 → ℕ → Utf8
utf8_step start b =
    if ltb b 0x80
    then start
    else if leb 0xc2 b && leb b 0xdf
    then more 0 0x80 0xbf
    else if leb 0xe0 b && leb b 0xef
    then more 1 (if b == 0xe0 then 0xa0 else 0x80) (if b == 0xed then 0x9f else 0xbf)
    else if leb 0xf0 b && leb b 0xf4
    then more 2 (if b == 0xf0 then 0x90 else 0x80) (if b == 0xf4 then 0x8f else 0xbf)
    else bad
utf8_step (more n lo hi) b = if leb lo b && leb b hi then next n else bad
  where
    next : ℕ → Utf8
    next zero = start
    next (suc n) = more n 0x80 0xbf
utf8_step bad b = bad

unfoldable pub utf8_from : Utf8 → Text → Bool
unfolding utf8_step
utf8_from start [] = true
utf8_from _ [] = false
utf8_from s (b ∷ bs) = utf8_from (utf8_step s b) bs

-- `std::str::from_utf8(bytes).unwrap_or(fallback)`
unfoldable pub from_utf8_or : Text → Text → Text
unfolding utf8_from
from_utf8_or fallback t = if utf8_from start t then t else fallback

abbrev pub IsAscii : Text → Type 0
IsAscii = All (λ b. b < 0x80)

utf8_from-ascii : (t : Text) → IsAscii t → utf8_from start t ≡ true
unfolding utf8_from
utf8_from-ascii [] h = refl
utf8_from-ascii (b ∷ bs) h = rw ((ltb_iff b 0x80).1 h.0) (utf8_from-ascii bs h.1)

pub from_utf8_or-ascii : (fallback t : Text) → IsAscii t → from_utf8_or fallback t ≡ t
unfolding from_utf8_or
from_utf8_or-ascii fallback t h = rw (utf8_from-ascii t h)

pub IsAscii-append : (s t : Text) → IsAscii (s ++ t) → IsAscii s × IsAscii t
IsAscii-append [] t h = (tt, h)
IsAscii-append (b ∷ bs) t h = let (hs, ht) = IsAscii-append bs t h.1 in ((h.0, hs), ht)
