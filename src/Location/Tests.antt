-- ===== src/Location/Tests.antt =====
-- The theorem on src/loc.rs at a concrete source.
use parc.Prelude.{◌≡◌, refl, true, false, [], ◌∷◌, arith}
use parc.Prelude.Lists.{take}
use parc.Prelude.Text.{Text, bytes}
use parc.Prelude.Parse.{parse_unsigned, digits_value}
use parc.Prelude.Result.{ok, panic, ◌>>=◌}
use parc.Location.{
  line_length, split_space, split_quote, parse_line_directive, past_line, next_line, location_loop,
  outermost_first, origin, get_location_for_offset,
}
use parc.Location.Lines.{ended_lines, past_lines, get_location_for_offset-past_lines}

-- A line of an entry file, a marker that enters an include, and a line of that.
abbrev marked : Text
marked = bytes "a\n# 10 \"h\" 1\nb\n"

-- A marker with the greatest line, and a line behind it.
abbrev greatest : Text
greatest = bytes "# 18446744073709551615 \"f\"\nx\n"

located :
    (get_location_for_offset true marked 15
      ≡ ok (record { file = bytes "h"; line = 11 }, record { file = []; line = 2 } ∷ []))
    × (get_location_for_offset true (bytes "a") 3 ≡ panic)
    × (get_location_for_offset true greatest 29 ≡ panic)
    × (get_location_for_offset false greatest 29 ≡ ok (record { file = bytes "f"; line = 0 }, []))
unfolding get_location_for_offset location_loop line_length split_space split_quote
    parse_line_directive past_line next_line outermost_first parse_unsigned digits_value
located = (refl, refl, refl, refl)

get_location_for_offset-past_lines_example : get_location_for_offset true marked 15 ≡ (
    past_lines true (ended_lines [] (take 15 marked)) origin >>= λ place.
    ok (place.location, outermost_first place.includes))
get_location_for_offset-past_lines_example =
    get_location_for_offset-past_lines true marked 15 (omega arith)
