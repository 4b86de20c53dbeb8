-- ===== src/Preprocess/Lexer/Splice.antt =====
-- `splice_lines` of src/preprocess/lexer.rs: C translation phase 2.
use parc.Prelude.{
  ℕ, ◌+◌, ◌/◌, ◌%◌, ◌≡◌, refl, Bool, false, ◌&&◌, [], ◌∷◌, ◌==◌, ltb, if◌then◌else◌, arith,
}
use parc.Prelude.{suc, ◌<◌, if_both, ◌||◌, ltb_iff, or_false, ◌↔◌, ap}
use parc.Prelude.Lists.{length}
use parc.Prelude.Text.{Text, IsAscii}

-- `result.push(byte as char)`: the code point of that number, in UTF-8.
unfoldable pub push_char : ℕ → Text → Text
push_char b out = if ltb b 0x80 then b ∷ out else (0xc0 + b / 64) ∷ (0x80 + b % 64) ∷ out

-- The loop reads on behind a backslash and a line feed, or a backslash, a carriage return and a
-- line feed.
unfoldable pub splice_lines : Text → Text
unfolding push_char
splice_lines [] = []
splice_lines (a ∷ []) = push_char a []
splice_lines (a ∷ b ∷ []) =
    let rest = push_char a (splice_lines (b ∷ [])) in if a == 0x5c && b == 0x0a then [] else rest
splice_lines (a ∷ b ∷ c ∷ bs) =
    let spliced = splice_lines (c ∷ bs) in
    let spliced_crlf = splice_lines bs in
    let rest = push_char a (splice_lines (b ∷ c ∷ bs)) in
    if a == 0x5c && b == 0x0a
    then spliced
    else if a == 0x5c && (b == 0x0d && c == 0x0a)
    then spliced_crlf
    else rest

abbrev pub has_backslash : Text → Bool
has_backslash [] = false
has_backslash (b ∷ bs) = b == 0x5c || has_backslash bs

-- How many bytes are outside ASCII.
high : Text → ℕ
high [] = 0
high (b ∷ bs) = (if ltb b 0x80 then 0 else 1) + high bs

length-push_char :
    (b : ℕ) (t : Text) → length (push_char b t) ≡ suc ((if ltb b 0x80 then 0 else 1) + length t)
unfolding push_char
length-push_char b t = ground arith

-- Without a backslash the loop pushes byte after byte.
splice_lines-push :
    (b : ℕ) (bs : Text)
    → (b == 0x5c) ≡ false
    → splice_lines (b ∷ bs) ≡ push_char b (splice_lines bs)
unfolding splice_lines
splice_lines-push b [] h = refl
splice_lines-push b (c ∷ []) h = rw h
splice_lines-push b (c ∷ d ∷ bs) h = rw h

length-splice_lines :
    (t : Text) → has_backslash t ≡ false → length (splice_lines t) ≡ length t + high t
unfolding high
length-splice_lines [] h = unfold splice_lines in refl
length-splice_lines (b ∷ bs) h =
    let (hb, hs) = or_false (b == 0x5c) (has_backslash bs) h in
    rw (splice_lines-push b bs hb, length-push_char) (omega (arith, length-splice_lines bs hs))

splice_lines-ascii : (t : Text) → IsAscii t → has_backslash t ≡ false → splice_lines t ≡ t
splice_lines-ascii [] a h = unfold splice_lines in refl
splice_lines-ascii (b ∷ bs) a h =
    let (hb, hs) = or_false (b == 0x5c) (has_backslash bs) h in
    rw (splice_lines-push b bs hb, splice_lines-ascii bs a.1 hs)
      (unfold push_char in rw ((ltb_iff b 0x80).1 a.0))

high→IsAscii : (t : Text) → high t ≡ 0 → IsAscii t
unfolding high
high→IsAscii [] h = tt
high→IsAscii (b ∷ bs) h = (ground (arith), high→IsAscii bs (ground arith))

-- A text without a backslash, in which there is nothing to splice, passes unchanged exactly when
-- it is ASCII: every other byte is pushed as a character of its own, and grows to two bytes.
pub splice_lines-id_iff : (t : Text) → has_backslash t ≡ false → (splice_lines t ≡ t) ↔ IsAscii t
splice_lines-id_iff t h = (
  λ p. high→IsAscii t (omega (arith, length-splice_lines t h, ap length p)),
  λ a. splice_lines-ascii t a h,
)

push_char-IsAscii : (b : ℕ) (t : Text) → b < 0x80 → IsAscii t → IsAscii (push_char b t)
unfolding push_char
push_char-IsAscii b t h a = if_both IsAscii (ltb b 0x80) (λ _. (h, a)) (λ e. absurd (ground arith))

-- Splicing an ASCII text gives an ASCII text.
pub splice_lines-IsAscii : (t : Text) → IsAscii t → IsAscii (splice_lines t)
unfolding splice_lines
splice_lines-IsAscii [] a = tt
splice_lines-IsAscii (b ∷ []) a = push_char-IsAscii b [] a.0 tt
splice_lines-IsAscii (b ∷ c ∷ []) a =
    if_both IsAscii (b == 0x5c && c == 0x0a) (λ _. tt)
      (λ _. push_char-IsAscii b (splice_lines (c ∷ [])) a.0 (splice_lines-IsAscii (c ∷ []) a.1))
splice_lines-IsAscii (b ∷ c ∷ d ∷ bs) a =
    if_both IsAscii (b == 0x5c && c == 0x0a) (λ _. splice_lines-IsAscii (d ∷ bs) a.1.1)
      (λ _.
        if_both IsAscii (b == 0x5c && (c == 0x0d && d == 0x0a))
          (λ _. splice_lines-IsAscii bs a.1.1.1)
          (λ _.
            push_char-IsAscii b (splice_lines (c ∷ d ∷ bs)) a.0
              (splice_lines-IsAscii (c ∷ d ∷ bs) a.1)))
