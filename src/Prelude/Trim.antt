-- ===== src/Prelude/Trim.antt =====
-- `str::trim`, `trim_start` and `trim_end` of Rust: the Unicode characters of property White_Space,
-- by their UTF-8 bytes.
use mathlib.Core.Bool.{Bool, true, false, ◌&&◌, ◌||◌}
use mathlib.Core.List.{[], ◌∷◌}
use Prim.Native.Nat.{ℕ}
use parc.Prelude.Tests.{◌==◌, leb, if◌then◌else◌}
use parc.Prelude.Text.{Text}

abbrev white1 : ℕ → Bool
white1 a = (leb 0x09 a && leb a 0x0d) || a == 0x20

-- U+0085 and U+00A0
abbrev white2 : ℕ → ℕ → Bool
white2 a b = a == 0xc2 && (b == 0x85 || b == 0xa0)

-- U+1680, U+2000 to U+200A, U+2028, U+2029, U+202F, U+205F and U+3000
abbrev white3 : ℕ → ℕ → ℕ → Bool
white3 a b c =
    (a == 0xe1 && (b == 0x9a && c == 0x80))
    || ((a == 0xe2
          && ((b == 0x80 && ((leb 0x80 c && leb c 0x8a) || (c == 0xa8 || (c == 0xa9 || c == 0xaf))))
              || (b == 0x81 && c == 0x9f)))
        || (a == 0xe3 && (b == 0x80 && c == 0x80)))

unfoldable pub trim_start : Text → Text
trim_start [] = []
trim_start (a ∷ []) = if white1 a then [] else a ∷ []
trim_start (a ∷ b ∷ []) =
    let one = trim_start (b ∷ []) in if white1 a then one else if white2 a b then [] else a ∷ b ∷ []
trim_start (a ∷ b ∷ c ∷ bs) =
    let one = trim_start (b ∷ c ∷ bs) in
    let two = trim_start (c ∷ bs) in
    let three = trim_start bs in
    if white1 a
    then one
    else if white2 a b
    then two
    else if white3 a b c
    then three
    else a ∷ b ∷ c ∷ bs

abbrev pub is_empty : Text → Bool
is_empty [] = true
is_empty (_ ∷ _) = false

-- `piece.trim().is_empty()`
unfoldable pub is_white : Text → Bool
unfolding trim_start
is_white t = is_empty (trim_start t)

unfoldable pub trim_end : Text → Text
unfolding is_white
trim_end [] = []
trim_end (b ∷ bs) = let rest = b ∷ trim_end bs in if is_white (b ∷ bs) then [] else rest

unfoldable pub trim : Text → Text
unfolding trim_end
trim t = trim_end (trim_start t)
