-- ===== src/Location/Lines.antt =====
-- `get_location_for_offset` of src/loc.rs by the lines in front of the offset.
use parc.Prelude.{
  ℕ, zero, suc, ◌-◌, ◌≤◌, ◌<◌, ◌≡◌, inl, inr, refl, Bool, false, List, [], ◌∷◌, ◌++◌, arith, ◌==◌,
  leb, if◌then◌else◌, if_both, ne→==, Bool-cases, append-nil, append_assoc,
}
use parc.Prelude.Lists.{length, take, drop}
use parc.Prelude.Text.{Text}
use parc.Prelude.Result.{Result, ok, ◌>>=◌, bind_congr}
use parc.Location.{
  Place, newline, line_length, parse_line_directive, past_line, location_loop, origin,
  outermost_first, get_location_for_offset,
}

-- The lines of a text that end in it, behind a part of the first one.
unfoldable pub ended_lines : Text → Text → List Text
ended_lines part [] = []
ended_lines part (b ∷ bs) =
    let line = part ∷ ended_lines [] bs in
    let longer = ended_lines (part ++ b ∷ []) bs in if b == newline then line else longer

-- A line marker sets the place, and any other line moves it on.
unfoldable pub past_lines : Bool → List Text → Place → Result Place
unfolding past_line parse_line_directive
past_lines checks [] p = ok p
past_lines checks (l ∷ ls) p = past_line checks (parse_line_directive l) p >>= past_lines checks ls

none_ended :
    (src part : Text) (pos : ℕ) → pos ≤ line_length src → ended_lines part (take pos src) ≡ []
unfolding ended_lines line_length
none_ended src part zero h = refl
none_ended [] part (suc pos) h = refl
none_ended (b ∷ bs) part (suc pos) h = elim (Bool-cases (b == newline)) [
  | inl e ↦ absurd (ground arith)
  | inr e ↦ rw e (none_ended bs (part ++ b ∷ []) pos (ground arith))
]

one_ended :
    (src part : Text) (pos : ℕ)
    → line_length src < pos
    → pos ≤ length src
    → ended_lines part (take pos src)
      ≡ (part ++ take (line_length src) src)
        ∷ ended_lines [] (take (pos - suc (line_length src)) (drop (suc (line_length src)) src))
unfolding ended_lines line_length
one_ended src part zero lt le = absurd (omega arith)
one_ended [] part (suc pos) lt le = absurd (omega arith)
one_ended (b ∷ bs) part (suc pos) lt le = elim (Bool-cases (b == newline)) [
  | inl e ↦ let same : pos ≡ suc pos - 1 = omega arith in rw e (cc (append-nil part, same))
  | inr e ↦
      let n = line_length bs in
      let ih = one_ended bs (part ++ b ∷ []) pos (ground arith) (omega arith) in
      let same : pos - suc n ≡ suc pos - suc (suc n) = omega arith in
      rw e (cc (ih, append_assoc part (b ∷ []) (take n bs), same))
]

line_length_le : (src : Text) → line_length src ≤ length src
unfolding line_length
line_length_le [] = omega arith
line_length_le (b ∷ bs) = ground (arith, line_length_le bs)

length-drop : (n : ℕ) (s : Text) → length (drop n s) ≡ length s - n
length-drop zero s = omega arith
length-drop (suc n) [] = omega arith
length-drop (suc n) (b ∷ bs) = omega (arith, length-drop n bs)

-- Within the source, the loop passes the lines that end in front of the offset.
location_loop-past_lines :
    (checks : Bool) (f : ℕ) (src : Text) (pos : ℕ) (p : Place)
    → pos < f
    → pos ≤ length src
    → location_loop checks f src pos p ≡ past_lines checks (ended_lines [] (take pos src)) p
unfolding location_loop past_lines
location_loop-past_lines checks zero src pos p lt le = absurd (omega arith)
location_loop-past_lines checks (suc f) src pos p lt le =
    elim (Bool-cases (leb pos (line_length src))) [
      | inl within ↦
          let none_yet = none_ended src [] pos (ground arith) in
          rw (none_yet, within) (if_both (λ r. r ≡ ok p) (pos == 0) (λ _. refl) (λ _. refl))
      | inr behind ↦
          let n = line_length src in
          let past : n < pos = ground arith in
          let not_start : (pos == 0) ≡ false = ne→== (omega arith) in
          let not_end : (length src == n) ≡ false = ne→== (omega arith) in
          let shorter = length-drop (suc n) src in
          rw (one_ended src [] pos past le, not_start, behind, not_end)
            (bind_congr (past_line checks (parse_line_directive (take n src)) p) (λ next.
              location_loop-past_lines checks f (drop (suc n) src) (pos - suc n) next (omega arith)
                (omega (arith, shorter))))
    ]

-- For an offset within the source, the result is that of the lines that end in front of the offset,
-- passed one by one from line 1 of the unnamed file: a line marker sets the place, and any other line
-- adds 1 to the line, which panics or wraps where that is the greatest `usize`. There is no other
-- panic, and the loop ends.
pub get_location_for_offset-past_lines :
    (checks : Bool) (src : Text) (pos : ℕ)
    → pos ≤ length src
    → get_location_for_offset checks src pos ≡ (
        past_lines checks (ended_lines [] (take pos src)) origin >>= λ place.
        ok (place.location, outermost_first place.includes))
unfolding get_location_for_offset
get_location_for_offset-past_lines checks src pos le =
    rw (location_loop-past_lines checks (suc pos) src pos origin (omega arith) le) refl
