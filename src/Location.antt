-- ===== src/Location.antt =====
-- src/loc.rs: the file and line of an offset in a preprocessed source. A place in the source is what
-- stands behind it. `checks` tells whether the build checks arithmetic for overflow.
pub mod Lines
mod Tests
use parc.Prelude.{
  ℕ, zero, suc, ◌+◌, ◌-◌, ◌^◌, ◌%◌, Bool, true, false, ◌&&◌, ◌||◌, not, List, [], ◌∷◌, ◌++◌, Option,
  none, some, ◌==◌, ltb, leb, if◌then◌else◌,
}
use parc.Prelude.Lists.{length, take, drop, any}
use parc.Prelude.Text.{Text, bytes, starts_with}
use parc.Prelude.Parse.{parse_unsigned}
use parc.Prelude.Result.{Result, ok, panic, out_of_fuel, ◌>>=◌}

pub record Location : Type 0 where
  pub file : Text
  pub line : ℕ

abbrev pub newline : ℕ
newline = 10

-- `find` of one byte, or the length.
unfoldable pub line_length : Text → ℕ
line_length [] = 0
line_length (b ∷ bs) = let rest = suc (line_length bs) in if b == newline then 0 else rest

abbrev pub strip_prefix : Text → Text → Option Text
strip_prefix s p = if starts_with s p then some (drop (length p) s) else none

-- A byte in front of the first of two parts.
abbrev pub in_front : ℕ → Option (Text × Text) → Option (Text × Text)
in_front b none = none
in_front b (some (s, t)) = some (b ∷ s, t)

-- What is in front of the first space, and the rest from it on.
unfoldable pub split_space : Text → Option (Text × Text)
split_space [] = none
split_space (b ∷ bs) =
    let rest = in_front b (split_space bs) in if b == b' ' then some ([], b ∷ bs) else rest

-- The length of the character that starts with a byte, and 0 for none.
abbrev pub char_length : Text → ℕ
char_length [] = 0
char_length (b ∷ _) =
    if ltb b 0x80 then 1 else if ltb b 0xe0 then 2 else if ltb b 0xf0 then 3 else 4

-- The loop over a quoted name, after as many bytes as belong to an escaped character.
unfoldable pub split_quote : ℕ → Text → Option (Text × Text)
split_quote escaped [] = none
split_quote (suc escaped) (b ∷ bs) = in_front b (split_quote escaped bs)
split_quote zero (b ∷ bs) =
    let rest = in_front b (split_quote zero bs) in
    let past = in_front b (split_quote (char_length bs) bs) in
    if b == b'"' then some ([], b ∷ bs) else if b == b'\\' then past else rest

-- The location of a line marker, and whether its flags hold F_NEW and F_RET.
pub record Marker : Type 0 where
  pub location : Location
  pub is_new : Bool
  pub is_return : Bool

abbrev then_text {ℓ κ} : {A : Type ℓ} {B : Type κ} → Option A → (A → Option B) → Option B
then_text none f = none
then_text (some a) f = f a

unfoldable pub parse_line_directive : Text → Option Marker
unfolding split_space split_quote parse_unsigned
parse_line_directive s = then_text (strip_prefix s (bytes "# ")) (λ s1.
    then_text (split_space s1) (λ (number, s2).
      then_text (parse_unsigned (2 ^ 64 - 1) 10 number) (λ line.
        then_text (strip_prefix s2 (b' ' ∷ b'"' ∷ [])) (λ s3.
          then_text (split_quote zero s3) (λ (file, s4).
            then_text (strip_prefix s4 (b'"' ∷ [])) (λ flags. some (record {
              location = record { file = file; line = line };
              is_new = any (λ f. f == b'1') flags;
              is_return = any (λ f. f == b'2') flags;
            })))))))

-- `pop`, of a list with the last element in front.
abbrev pub pop : List Location → List Location
pop [] = []
pop (_ ∷ includes) = includes

-- The stack has the innermost include in front.
pub record Place : Type 0 where
  pub location : Location
  pub includes : List Location

-- `+= 1` on a `usize`: the greatest one panics with overflow checks, and wraps without.
unfoldable pub next_line : Bool → ℕ → Result ℕ
next_line checks n =
    if ltb (n + 1) (2 ^ 64) then ok (n + 1) else if checks then panic else ok ((n + 1) % 2 ^ 64)

unfoldable pub past_line : Bool → Option Marker → Place → Result Place
unfolding next_line
past_line checks none p = next_line checks p.location.line >>= λ n.
    ok (record p { location = record { file = p.location.file; line = n } })
past_line checks (some m) p =
    let entered = if m.is_new then p.location ∷ p.includes else p.includes in
    ok (record { location = m.location; includes = if m.is_return then pop entered else entered })

-- The loop, on fuel; `pos` counts from the place. Behind the end of the source, the slice panics.
unfoldable pub location_loop : Bool → ℕ → Text → ℕ → Place → Result Place
unfolding line_length parse_line_directive past_line
location_loop checks zero src pos p = out_of_fuel
location_loop checks (suc f) src pos p =
    let n = line_length src in
    let rest = past_line checks (parse_line_directive (take n src)) p >>= λ next.
    location_loop checks f (drop (suc n) src) (pos - suc n) next in
    if pos == 0
    then ok p
    else if leb pos n
    then ok p
    else if length src == n && ltb (suc n) pos
    then panic
    else rest

-- Of the stack, the outermost include comes first.
unfoldable pub outermost_first : List Location → List Location
outermost_first [] = []
outermost_first (l ∷ ls) = outermost_first ls ++ l ∷ []

abbrev pub origin : Place
origin = record { location = record { file = []; line = 1 }; includes = [] }

unfoldable pub get_location_for_offset : Bool → Text → ℕ → Result (Location × List Location)
unfolding location_loop outermost_first
get_location_for_offset checks src pos = location_loop checks (suc pos) src pos origin >>= λ p.
    ok (p.location, outermost_first p.includes)
